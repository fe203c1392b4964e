-- ===== src/Transactions/App/Locks/Steps.antt =====
-- transactions-demo/server/account.go: the operations on locks keep them as listed.
use mathlib.Core.Option.{some-injective}
use dist_sys_demos.Base.{
  ◌≡◌, refl, sym, ap, ◌∙◌, subst, Bool, true, false, some, arith, if◌then◌else◌, Bool-cases,
  Option-cases, inl, inr,
}
use dist_sys_demos.Base.Dict.{Dict, Unique, Unique-insert, lookup, insert, lookup-insert}
use dist_sys_demos.Base.Text.{Text, text_eq, text_beq, text_beq_iff}
use dist_sys_demos.Transactions.App.Locks.{
  IsHeld, Holds, AllHeld, IsLocked, new_lock-IsHeld, grant-IsHeld,
}
use dist_sys_demos.Transactions.App.{
  Lock, Application, Outcome, done, waits, panics, r_lock, w_lock, new_lock, lock_of, init_lock,
  note_lock, acquire_grant,
}

pub AllHeld-insert :
    (acct : Text) (l : Lock) (locks : Dict Text Lock)
    → AllHeld locks
    → IsHeld l
    → AllHeld (insert acct l locks)
AllHeld-insert acct l locks h v acct1 l1 e = elim (Bool-cases (text_beq acct acct1)) [
  | inl same ↦
      subst IsHeld (some-injective l l1 (sym (lookup-insert acct acct1 l locks ∙ rw same) ∙ e)) v
  | inr other ↦ h acct1 l1 (sym (lookup-insert acct acct1 l locks ∙ rw other) ∙ e)
]

pub init_lock-IsLocked :
    (acct : Text) (app : Application) → IsLocked app → IsLocked (init_lock acct app)
unfolding init_lock
init_lock-IsLocked acct app v = elim (Option-cases (lookup acct app.locks)) [
  | inr (l, e) ↦ rw (e, init_lock) v
  | inl fresh ↦
      rw (fresh, init_lock)
        (record {
          locks = AllHeld-insert acct new_lock app.locks v.locks new_lock-IsHeld;
          unique = v.unique;
          noted = λ tid1 acct1 info r i h.
              let (k, e, listed) = v.noted tid1 acct1 info r i h in
              (
                k,
                lookup-insert acct acct1 new_lock app.locks
                    ∙ ground (arith, text_beq_iff acct acct1, fresh, e),
                listed,
              );
        })
]

abbrev pub Remains {ℓ} : {A : Type ℓ} → Outcome A → Type 0
Remains (done a app) = IsLocked app
Remains (waits app) = IsLocked app
Remains panics = Unit

pub lock_of-some :
    (acct : Text) (app : Application) (l : Lock)
    → lookup acct app.locks ≡ some l
    → l ≡ lock_of app acct
lock_of-some acct app l e = rw (e, lock_of) refl

pub lock_of-IsHeld : (acct : Text) (app : Application) → IsLocked app → IsHeld (lock_of app acct)
lock_of-IsHeld acct app v = elim (Option-cases (lookup acct app.locks)) [
  | inl fresh ↦ rw (fresh, lock_of) new_lock-IsHeld
  | inr (l, e) ↦ rw (e, lock_of) (v.locks acct l e)
]

-- A lock is replaced by one that lists the same transactions, but for one.
module _ (tid acct : Text) (l1 : Lock) (app : Application)
    (others : (tid1 : Text)
      → text_beq tid tid1 ≡ false
      → lookup tid1 l1.tids ≡ lookup tid1 (lock_of app acct).tids) where
  pub stays-elsewhere :
      (tid1 acct1 : Text) (r : Bool)
      → text_beq acct acct1 ≡ false
      → Holds app.locks acct1 tid1 r
      → Holds (insert acct l1 app.locks) acct1 tid1 r
  stays-elsewhere tid1 acct1 r other (k, e, listed) =
      (k, lookup-insert acct acct1 l1 app.locks ∙ rw other e, listed)

  pub stays-other :
      (tid1 acct1 : Text) (r : Bool)
      → text_beq tid tid1 ≡ false
      → Holds app.locks acct1 tid1 r
      → Holds (insert acct l1 app.locks) acct1 tid1 r
  stays-other tid1 acct1 r other (k, e, listed) = elim (Bool-cases (text_beq acct acct1)) [
    | inr elsewhere ↦ stays-elsewhere tid1 acct1 r elsewhere (k, e, listed)
    | inl eq ↦
        let here : lookup acct app.locks ≡ some k =
          ap (λ a. lookup a app.locks) ((text_beq_iff acct acct1).0 eq) ∙ e in
        let q = lock_of-some acct app k here in
        (
          l1,
          lookup-insert acct acct1 l1 app.locks ∙ rw eq,
          others tid1 other ∙ ap (λ (x : Lock). lookup tid1 x.tids) (sym q) ∙ listed,
        )
  ]

  -- The transaction notes what has changed, and nothing else.
  pub renoted-IsLocked :
      (info info1 : Dict Text Bool)
      → IsLocked app
      → IsHeld l1
      → Unique info1
      → lookup tid app.tx_lock_info ≡ some info
      → ((acct1 : Text) (r : Bool)
          → text_beq acct acct1 ≡ false
          → lookup acct1 info1 ≡ some r
          → lookup acct1 info ≡ some r)
      → ((r : Bool) → lookup acct info1 ≡ some r → lookup tid l1.tids ≡ some r)
      → IsLocked (record app {
        locks = insert acct l1 app.locks;
        tx_lock_info = insert tid info1 app.tx_lock_info;
      })
  renoted-IsLocked info info1 v held unique i elsewhere here = record {
    locks = AllHeld-insert acct l1 app.locks v.locks held;
    unique = λ tid1 info2 e. elim (Bool-cases (text_beq tid tid1)) [
      | inl eq ↦ subst Unique (found tid1 info2 eq e) unique
      | inr other ↦ v.unique tid1 info2 (not_found tid1 info2 other e)
    ];
    noted = λ tid1 acct1 info2 r e h. elim (Bool-cases (text_beq tid tid1)) [
      | inr other ↦
          stays-other tid1 acct1 r other
            (v.noted tid1 acct1 info2 r (not_found tid1 info2 other e) h)
      | inl eq ↦
          let p : tid ≡ tid1 = (text_beq_iff tid tid1).0 eq in
          let h1 : lookup acct1 info1 ≡ some r =
            ap (λ (m : Dict Text Bool). lookup acct1 m) (found tid1 info2 eq e) ∙ h in
          subst (λ t. Holds (insert acct l1 app.locks) acct1 t r) p
            (elim (Bool-cases (text_beq acct acct1)) [
              | inr other ↦
                  stays-elsewhere tid acct1 r other
                    (v.noted tid acct1 info r i (elsewhere acct1 r other h1))
              | inl eq1 ↦ (
                l1,
                lookup-insert acct acct1 l1 app.locks ∙ rw eq1,
                here r (ap (λ a. lookup a info1) ((text_beq_iff acct acct1).0 eq1) ∙ h1),
              )
            ])
    ];
  }
    where
      found :
          (tid1 : Text) (info2 : Dict Text Bool)
          → text_beq tid tid1 ≡ true
          → lookup tid1 (insert tid info1 app.tx_lock_info) ≡ some info2
          → info1 ≡ info2
      found tid1 info2 eq e =
          some-injective info1 info2
            (sym (lookup-insert tid tid1 info1 app.tx_lock_info ∙ rw eq) ∙ e)

      not_found :
          (tid1 : Text) (info2 : Dict Text Bool)
          → text_beq tid tid1 ≡ false
          → lookup tid1 (insert tid info1 app.tx_lock_info) ≡ some info2
          → lookup tid1 app.tx_lock_info ≡ some info2
      not_found tid1 info2 other e =
          sym (lookup-insert tid tid1 info1 app.tx_lock_info ∙ rw other) ∙ e

pub acquire_grant-Remains :
    (tid acct : Text) (r : Bool) (app : Application)
    → IsLocked app
    → Remains (acquire_grant tid acct r app)
unfolding acquire_grant note_lock
acquire_grant-Remains tid acct r app v =
    let l = lock_of app acct in
    elim (Option-cases (if r then r_lock l.rw_mu else w_lock l.rw_mu)) [
      | inl busy ↦ rw (busy, Remains) v
      | inr (mu, free) ↦ elim (Option-cases (lookup tid app.tx_lock_info)) [
        | inl none_yet ↦ rw (free, none_yet, Remains) tt
        | inr (info, i) ↦
            let l1 : Lock = record { rw_mu = mu; tids = insert tid r l.tids } in
            rw (free, i, Remains)
              (renoted-IsLocked tid acct l1 app
                (λ tid1 other. lookup-insert tid tid1 r l.tids ∙ rw other) info (insert acct r info)
                v (grant-IsHeld tid r l mu (lock_of-IsHeld acct app v) free)
                (Unique-insert acct r info (v.unique tid info i)) i
                (λ acct1 r1 other h. sym (lookup-insert acct acct1 r info ∙ rw other) ∙ h)
                (λ r1 h. ground (
                  arith,
                  lookup-insert tid tid r l.tids,
                  lookup-insert acct acct r info,
                  text_beq_iff tid tid,
                  text_beq_iff acct acct,
                  h,
                )))
      ]
    ]
