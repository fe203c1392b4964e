-- ===== src/Transactions/App/Isolation/Release.antt =====
-- transactions-demo/server/account.go: `releaseLocks` takes its transaction, and no other, off the
-- locks that it has noted.
use mathlib.Core.Option.{some-injective}
use dist_sys_demos.Base.{
  ◌≡◌, refl, sym, ap, ◌∙◌, Bool, false, Option, none, some, [], ◌∷◌, arith, ◌&&◌, if◌then◌else◌,
  Bool-cases, Option-cases, inl, inr, subst,
}
use dist_sys_demos.Base.Dict.{
  Dict, lookup, insert, erase, lookup-insert, lookup-erase, lookup-cons, lookup-nil,
}
use dist_sys_demos.Base.Text.{Text, text_eq, text_beq, text_beq_iff}
use dist_sys_demos.Base.Int.{ℤ}
use dist_sys_demos.Transactions.App.Locks.{IsLocked}
use dist_sys_demos.Transactions.App.Locks.Release.{release_locks-IsLocked}
use dist_sys_demos.Transactions.App.{
  Lock, Application, r_unlock, w_unlock, new_lock, lock_of, cache_of, lock_info_of, is_some,
  release_one, release_all, release_locks,
}
use dist_sys_demos.Transactions.App.Isolation.{IsSound, KeepsOthers, or_empty-erase}

-- How the account's lock lists the transaction.
abbrev listed : Dict Text Lock → Text → Text → Option Bool
listed locks acct tid =
    let l : Lock = elim (lookup acct locks) [ none ↦ new_lock | some l ↦ l ] in lookup tid l.tids

release_one-listed :
    (tid acct : Text) (r : Bool) (locks locks1 : Dict Text Lock) (t acct1 : Text)
    → release_one tid acct r locks ≡ some locks1
    → listed locks1 acct1 t
      ≡ (if text_beq tid t && text_beq acct acct1 then none else listed locks acct1 t)
unfolding release_one
release_one-listed tid acct r locks locks1 t acct1 e = elim (Option-cases (lookup acct locks)) [
  | inl gone ↦ absurd (ground (arith, gone, e))
  | inr (l, known) ↦ elim (Option-cases (if r then r_unlock l.rw_mu else w_unlock l.rw_mu)) [
    | inl stuck ↦ absurd (ground (arith, known, stuck, e))
    | inr (mu, free) ↦
        let l1 : Lock = record { rw_mu = mu; tids = erase tid l.tids } in
        let q : insert acct l1 locks ≡ locks1 = ground (arith, known, free, e) in
        subst
          (λ m.
            listed m acct1 t
            ≡ (if text_beq tid t && text_beq acct acct1 then none else listed locks acct1 t))
          q
          (elim (Bool-cases (text_beq acct acct1)) [
            | inl same ↦
                let here : lookup acct1 locks ≡ some l =
                  ap (λ a. lookup a locks) (sym ((text_beq_iff acct acct1).0 same)) ∙ known in
                rw (lookup-insert acct acct1 l1 locks, same, here, lookup-erase tid t l.tids)
                  (ground arith)
            | inr away ↦ rw (lookup-insert acct acct1 l1 locks, away) (ground arith)
          ])
  ]
]

release_all-listed :
    (tid : Text) (info : Dict Text Bool) (locks locks1 : Dict Text Lock) (t acct1 : Text)
    → release_all tid info locks ≡ some locks1
    → listed locks1 acct1 t
      ≡ (if text_beq tid t && is_some (lookup acct1 info) then none else listed locks acct1 t)
unfolding release_all
release_all-listed tid [] locks locks1 t acct1 e =
    rw (lookup-nil {V = Bool} acct1)
      (ap (λ m. listed m acct1 t) (sym (some-injective locks locks1 e)) ∙ ground arith)
release_all-listed tid ((acct, r) ∷ info) locks locks1 t acct1 e =
    elim (Option-cases (release_one tid acct r locks)) [
      | inl stuck ↦ absurd (ground (arith, stuck, e))
      | inr (locks2, first) ↦
          let e2 : release_all tid info locks2 ≡ some locks1 = ground (arith, first, e) in
          release_all-listed tid info locks2 locks1 t acct1 e2
          ∙ rw
              (
                release_one-listed tid acct r locks locks2 t acct1 first,
                lookup-cons acct1 acct r info,
              )
              (ground arith)
    ]

-- With its cache gone and its locks given back, a transaction leaves locks and notes in agreement.
pub release_locks-IsSound :
    (tid : Text) (app app1 : Application)
    → IsSound app
    → cache_of app tid ≡ []
    → release_locks tid app ≡ some app1
    → IsSound app1 × KeepsOthers tid app app1
unfolding release_locks
release_locks-IsSound tid app app1 v dropped e =
    let (app2, e2, w) = release_locks-IsLocked tid app v.locked in
    let info = lock_info_of app tid in
    elim (Option-cases (release_all tid info app.locks)) [
      | inl stuck ↦ absurd (ground (arith, stuck, e))
      | inr (locks1, all) ↦
          let app3 : Application = record app {
            locks = locks1;
            tx_lock_info = erase tid app.tx_lock_info;
          } in
          let q : app3 ≡ app1 = ground (arith, all, e) in
          let other : (t : Text)
              → text_beq tid t ≡ false
              → lock_info_of app3 t ≡ lock_info_of app t =
            λ t h. or_empty-erase tid t app.tx_lock_info ∙ rw h in
          subst (λ x. IsSound x × KeepsOthers tid app x) q
            (
              record {
                locked = subst IsLocked (some-injective app2 app3 (sym e2 ∙ e ∙ ap some (sym q))) w;
                agrees = λ t acct.
                    ap (lookup acct) (or_empty-erase tid t app.tx_lock_info)
                    ∙ after t acct
                    ∙ sym (release_all-listed tid info app.locks locks1 t acct all);
                cached = λ t acct x h. elim (Bool-cases (text_beq tid t)) [
                  | inr h1 ↦ ap (lookup acct) (other t h1) ∙ v.cached t acct x h
                  | inl h1 ↦ absurd (
                      ground (
                        arith,
                        ap (λ u. lookup acct (cache_of app u)) (sym ((text_beq_iff tid t).0 h1))
                            ∙ ap (lookup acct) dropped,
                        lookup-nil {V = ℤ} acct,
                        h,
                      ))
                ];
                unique = v.unique;
              },
              (refl, λ t h. (refl, other t h)),
            )
    ]
  where
    after :
        (t acct : Text)
        → lookup acct (if text_beq tid t then [] else lock_info_of app t) ≡ (
            if text_beq tid t && is_some (lookup acct (lock_info_of app tid))
            then none
            else lookup t (lock_of app acct).tids)
    after t acct = elim (Bool-cases (text_beq tid t)) [
      | inr other ↦ rw other (v.agrees t acct)
      | inl eq ↦
          let p : tid ≡ t = (text_beq_iff tid t).0 eq in
          rw (eq, lookup-nil {V = Bool} acct)
            (subst
              (λ u. none ≡ (
                if is_some (lookup acct (lock_info_of app tid))
                then none
                else lookup u (lock_of app acct).tids))
              p (ground (arith, v.agrees tid acct)))
    ]
