-- ===== src/Transactions/App/Locks/Release.antt =====
-- transactions-demo/server/account.go: `releaseLocks` returns, if the locks are held as listed.
use mathlib.Core.Option.{some-injective}
use dist_sys_demos.Base.{
  ◌≡◌, refl, sym, ap, ◌∙◌, Bool, false, some, [], ◌∷◌, arith, Bool-cases, Option-cases, inl, inr,
}
use dist_sys_demos.Base.Dict.{
  Dict, Unique, lookup, insert, erase, lookup-insert, lookup-erase, lookup-nil, lookup-cons,
}
use dist_sys_demos.Base.Text.{Text, text_eq, text_beq, text_beq_iff}
use dist_sys_demos.Transactions.App.Locks.{Holds, AllHeld, IsLocked, release-IsHeld}
use dist_sys_demos.Transactions.App.{
  Lock, Application, lock_info_of, release_one, release_all, release_locks,
}
use dist_sys_demos.Transactions.App.Locks.Steps.{AllHeld-insert}

-- What the other transactions hold.
abbrev OthersHold : Text → Dict Text Lock → Dict Text Lock → Type 0
OthersHold tid locks locks1 =
    (tid1 acct1 : Text) (r : Bool)
    → text_beq tid tid1 ≡ false
    → Holds locks acct1 tid1 r
    → Holds locks1 acct1 tid1 r

release_one-holds :
    (tid acct : Text) (r : Bool) (locks : Dict Text Lock)
    → AllHeld locks
    → Holds locks acct tid r
    → (locks1 : Dict Text Lock) × (release_one tid acct r locks ≡ some locks1)
      × AllHeld locks1
      × OthersHold tid locks locks1
      × ((acct1 : Text) (s : Bool)
          → text_beq acct acct1 ≡ false
          → Holds locks acct1 tid s
          → Holds locks1 acct1 tid s)
unfolding release_one
release_one-holds tid acct r locks v (l, e, listed) =
    let (mu, free, held) = release-IsHeld tid r l (v acct l e) listed in
    let l1 : Lock = record { rw_mu = mu; tids = erase tid l.tids } in
    (
      insert acct l1 locks,
      rw (e, free, release_one),
      AllHeld-insert acct l1 locks v held,
      λ tid1 acct1 s other (k, ek, h). elim (Bool-cases (text_beq acct acct1)) [
        | inr elsewhere ↦ (k, lookup-insert acct acct1 l1 locks ∙ rw elsewhere ek, h)
        | inl eq ↦
            let q : l ≡ k =
              some-injective l k
                (sym e ∙ ap (λ a. lookup a locks) ((text_beq_iff acct acct1).0 eq) ∙ ek) in
            (
              l1,
              lookup-insert acct acct1 l1 locks ∙ rw eq,
              lookup-erase tid tid1 l.tids ∙ rw other (ap (λ (x : Lock). lookup tid1 x.tids) q ∙ h),
            )
      ],
      λ acct1 s elsewhere (k, ek, h). (k, lookup-insert acct acct1 l1 locks ∙ rw elsewhere ek, h),
    )

release_all-holds :
    (tid : Text) (info : Dict Text Bool) (locks : Dict Text Lock)
    → Unique info
    → AllHeld locks
    → ((acct : Text) (r : Bool) → lookup acct info ≡ some r → Holds locks acct tid r)
    → (locks1 : Dict Text Lock) × (release_all tid info locks ≡ some locks1)
      × AllHeld locks1
      × OthersHold tid locks locks1
unfolding release_all
release_all-holds tid [] locks u v h = (locks, refl, v, λ tid1 acct1 r other k. k)
release_all-holds tid ((acct, r) ∷ info) locks u v h =
    let (locks1, e1, v1, others1, same1) =
      release_one-holds tid acct r locks v
        (h acct r (lookup-cons acct acct r info ∙ rw ((text_beq_iff acct acct).1 refl))) in
    let (locks2, e2, v2, others2) = release_all-holds tid info locks1 u.1 v1 (λ acct1 s e.
      elim (Bool-cases (text_beq acct acct1)) [
        | inr other ↦ same1 acct1 s other (h acct1 s (lookup-cons acct1 acct r info ∙ rw other e))
        | inl eq ↦
            absurd
              (ground (arith, ap (λ a. lookup a info) ((text_beq_iff acct acct1).0 eq), u.0, e))
      ]) in
    (
      locks2,
      rw (e1, release_all) e2,
      v2,
      λ tid1 acct1 s other k. others2 tid1 acct1 s other (others1 tid1 acct1 s other k),
    )

pub release_locks-IsLocked :
    (tid : Text) (app : Application)
    → IsLocked app
    → (app1 : Application) × (release_locks tid app ≡ some app1) × IsLocked app1
unfolding release_locks
release_locks-IsLocked tid app v = elim (Option-cases (lookup tid app.tx_lock_info)) [
  | inl unknown ↦
      finish [] (rw unknown) tt (λ acct r e. absurd (ground (arith, lookup-nil {V = Bool} acct, e)))
  | inr (info, i) ↦
      finish info (rw i) (v.unique tid info i) (λ acct r e. v.noted tid acct info r i e)
]
  where
    finish :
        (info : Dict Text Bool)
        → lock_info_of app tid ≡ info
        → Unique info
        → ((acct : Text) (r : Bool) → lookup acct info ≡ some r → Holds app.locks acct tid r)
        → (app1 : Application) × (release_locks tid app ≡ some app1) × IsLocked app1
    finish info known u h =
        let (locks1, e1, v1, others1) = release_all-holds tid info app.locks u v.locks h in
        (
          record app { locks = locks1; tx_lock_info = erase tid app.tx_lock_info },
          rw (known, e1, release_locks),
          record {
            locks = v1;
            unique = λ tid1 info1 i. v.unique tid1 info1 (kept tid1 info1 i);
            noted = λ tid1 acct1 info1 r i e.
                others1 tid1 acct1 r (apart tid1 info1 i)
                  (v.noted tid1 acct1 info1 r (kept tid1 info1 i) e);
          },
        )
      where
        apart :
            (tid1 : Text) (info1 : Dict Text Bool)
            → lookup tid1 (erase tid app.tx_lock_info) ≡ some info1
            → text_beq tid tid1 ≡ false
        apart tid1 info1 i = ground (arith, lookup-erase tid tid1 app.tx_lock_info, i)

        kept :
            (tid1 : Text) (info1 : Dict Text Bool)
            → lookup tid1 (erase tid app.tx_lock_info) ≡ some info1
            → lookup tid1 app.tx_lock_info ≡ some info1
        kept tid1 info1 i =
            sym (lookup-erase tid tid1 app.tx_lock_info ∙ rw (apart tid1 info1 i)) ∙ i
