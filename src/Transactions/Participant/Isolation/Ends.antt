-- ===== src/Transactions/Participant/Isolation/Ends.antt =====
-- transactions-demo/server/rpc.go: the end of a transaction keeps locks and notes in agreement, and
-- changes only the accounts that the transaction has changed.
use dist_sys_demos.Base.{
  ◌≡◌, refl, sym, ap, ◌∙◌, Bool, false, none, some, [], ◌∷◌, arith, Bool-cases, inl, inr, subst,
  ◌⊎◌,
}
use dist_sys_demos.Base.Dict.{Unique, lookup, insert, erase, lookup-insert, lookup-cons, lookup-nil}
use dist_sys_demos.Base.Text.{Text, text_eq, text_beq, text_beq_iff}
use dist_sys_demos.Base.Int.{ℤ, ◌+ℤ◌}
use dist_sys_demos.Transactions.App.{release_locks, Accounts, Application, or_zero, cache_of}
use dist_sys_demos.Transactions.App.Isolation.{IsSound, or_empty-erase}
use dist_sys_demos.Transactions.App.Isolation.Release.{release_locks-IsSound}
use dist_sys_demos.Transactions.Participant.{add_changes, apply_changes, commit}
use dist_sys_demos.Transactions.Participant.Solvency.{commit-inv}
use dist_sys_demos.Transactions.Participant.Isolation.{Apart}

add_changes-unlisted :
    (changes committed : Accounts) (acct : Text)
    → lookup acct changes ≡ none
    → lookup acct (add_changes changes committed) ≡ lookup acct committed
unfolding add_changes
add_changes-unlisted [] committed acct h = refl
add_changes-unlisted ((k, c) ∷ changes) committed acct h =
    let v = or_zero (lookup k committed) +ℤ c in
    add_changes-unlisted changes (insert k v committed) acct
      (ground (arith, lookup-cons acct k c changes, h))
    ∙ ground (arith, lookup-insert k acct v committed, lookup-cons acct k c changes, h)

pub commit-effects :
    (do_commit : Bool) (tid : Text) (app app1 : Application) (replied : Bool)
    → IsSound app
    → commit do_commit tid app ≡ some (app1, replied)
    → IsSound app1 × Apart tid app app1
commit-effects do_commit tid app app1 replied v e =
    let (released, _) = commit-inv do_commit tid app app1 replied e in
    elim (Bool-cases do_commit) [
      | inl commits ↦
          ended (add_changes (cache_of app tid) app.committed_data)
            (subst
              (λ b.
                let app0 = apply_changes b tid app in
                release_locks tid (record app0 { cache = erase tid app0.cache }) ≡ some app1)
              commits released)
            (add_changes-unlisted (cache_of app tid) app.committed_data)
      | inr aborts ↦
          ended app.committed_data
            (subst
              (λ b.
                let app0 = apply_changes b tid app in
                release_locks tid (record app0 { cache = erase tid app0.cache }) ≡ some app1)
              aborts released)
            (λ acct h. refl)
    ]
  where
    ended :
        (money : Accounts)
        → release_locks tid (record app { committed_data = money; cache = erase tid app.cache })
          ≡ some app1
        → ((acct : Text)
            → lookup acct (cache_of app tid) ≡ none
            → lookup acct money ≡ lookup acct app.committed_data)
        → IsSound app1 × Apart tid app app1
    ended money released same =
        let app2 : Application = record app {
          committed_data = money;
          cache = erase tid app.cache;
        } in
        let left : (t : Text) → text_beq tid t ≡ false → cache_of app2 t ≡ cache_of app t =
          λ t other. or_empty-erase tid t app.cache ∙ rw other in
        let gone : cache_of app2 tid ≡ [] =
          or_empty-erase tid tid app.cache ∙ rw ((text_beq_iff tid tid).1 refl) in
        let dropped : (t : Text) → (cache_of app2 t ≡ []) ⊎ (cache_of app2 t ≡ cache_of app t) =
          λ t. elim (Bool-cases (text_beq tid t)) [
            | inl eq ↦ inl (or_empty-erase tid t app.cache ∙ rw eq)
            | inr other ↦ inr (left t other)
          ] in
        let (w, k) =
          release_locks-IsSound tid app2 app1
            (record {
              locked = record {
                locks = v.locked.locks;
                unique = v.locked.unique;
                noted = v.locked.noted;
              };
              agrees = v.agrees;
              cached = λ t acct x h. elim (dropped t) [
                | inr kept ↦ v.cached t acct x (ap (lookup acct) (sym kept) ∙ h)
                | inl empty ↦
                    absurd (ground (arith, ap (lookup acct) empty, lookup-nil {V = ℤ} acct, h))
              ];
              unique = λ t. elim (dropped t) [
                | inr kept ↦ subst Unique (sym kept) (v.unique t)
                | inl empty ↦ subst Unique (sym empty) tt
              ];
            })
            gone released in
        (
          w,
          (
            λ t other. ((k.1 t other).0 ∙ left t other, (k.1 t other).1),
            λ acct h. ap (lookup acct) k.0 ∙ same acct h,
          ),
        )
