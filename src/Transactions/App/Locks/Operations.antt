-- ===== src/Transactions/App/Locks/Operations.antt =====
-- transactions-demo/server/account.go: an operation that returns or waits leaves the locks as listed.
use dist_sys_demos.Base.{
  ◌≡◌, sym, ap, ◌∙◌, Bool, true, false, not, some, arith, Bool-cases, Option-cases, inl, inr, ◌&&◌,
}
use dist_sys_demos.Base.Dict.{Unique-erase, lookup, erase, lookup-erase}
use dist_sys_demos.Base.Text.{Text, text_eq, text_beq, text_beq_iff}
use dist_sys_demos.Base.Int.{ℤ}
use dist_sys_demos.Transactions.App.Locks.{IsLocked, release-IsHeld}
use dist_sys_demos.Transactions.App.{
  Lock, Application, Outcome, done, waits, panics, ◌>>=◌, lock_of, init_lock, acquire_grant,
  drop_read, acquire_read, acquire_write, acquire_rw_lock, read_balance, balance, set_cache,
  store_deposit, deposit, store_withdraw, withdraw, cache_of, is_some,
}
use dist_sys_demos.Transactions.App.Locks.Steps.{
  Remains, stays-other, renoted-IsLocked, AllHeld-insert, init_lock-IsLocked, lock_of-IsHeld,
  acquire_grant-Remains,
}

pub Remains-bind {ℓ κ} :
    {A : Type ℓ} {B : Type κ} (o : Outcome A) (f : A → Application → Outcome B)
    → Remains o
    → ((a : A) (app : Application) → IsLocked app → Remains (f a app))
    → Remains (o >>= f)
Remains-bind (done a app) f h k = k a app h
Remains-bind (waits app) f h k = h
Remains-bind panics f h k = tt

drop_read-Remains :
    (tid acct : Text) (app : Application)
    → IsLocked app
    → lookup tid (lock_of app acct).tids ≡ some true
    → Remains (drop_read tid acct app)
unfolding drop_read
drop_read-Remains tid acct app v reads =
    let l = lock_of app acct in
    let (mu, free, held) = release-IsHeld tid true l (lock_of-IsHeld acct app v) reads in
    let l1 : Lock = record { rw_mu = mu; tids = erase tid l.tids } in
    let others : (tid1 : Text)
        → text_beq tid tid1 ≡ false
        → lookup tid1 l1.tids ≡ lookup tid1 l.tids =
      λ tid1 other. lookup-erase tid tid1 l.tids ∙ rw other in
    elim (Option-cases (lookup tid app.tx_lock_info)) [
      | inr (info, i) ↦
          rw (free, i, Remains)
            (renoted-IsLocked tid acct l1 app others info (erase acct info) v held
              (Unique-erase acct info (v.unique tid info i)) i
              (λ acct1 r1 other h. sym (lookup-erase acct acct1 info ∙ rw other) ∙ h)
              (λ r1 h. ground (arith, lookup-erase acct acct info, text_beq_iff acct acct, h)))
      | inl unknown ↦
          rw (free, unknown, Remains)
            (record {
              locks = AllHeld-insert acct l1 app.locks v.locks held;
              unique = v.unique;
              noted = λ tid1 acct1 info r i h. elim (Bool-cases (text_beq tid tid1)) [
                | inr other ↦
                    stays-other tid acct l1 app others tid1 acct1 r other
                      (v.noted tid1 acct1 info r i h)
                | inl eq ↦ absurd (
                    ground (
                      arith,
                      ap (λ t. lookup t app.tx_lock_info) ((text_beq_iff tid tid1).0 eq),
                      unknown,
                      i,
                    ))
              ];
            })
    ]

acquire_read-Remains :
    (tid acct : Text) (app : Application) → IsLocked app → Remains (acquire_read tid acct app)
unfolding acquire_read
acquire_read-Remains tid acct app v = elim (Option-cases (lookup tid (lock_of app acct).tids)) [
  | inl fresh ↦ rw (fresh, Remains) (acquire_grant-Remains tid acct true app v)
  | inr (true, reads) ↦ rw (reads, Remains) (acquire_grant-Remains tid acct true app v)
  | inr (false, writes) ↦ rw (writes, Remains) v
]

acquire_write-Remains :
    (tid acct : Text) (app : Application) → IsLocked app → Remains (acquire_write tid acct app)
unfolding acquire_write
acquire_write-Remains tid acct app v = elim (Option-cases (lookup tid (lock_of app acct).tids)) [
  | inl fresh ↦ rw (fresh, Remains) (acquire_grant-Remains tid acct false app v)
  | inr (false, writes) ↦ rw (writes, Remains) v
  | inr (true, reads) ↦
      rw (reads, Remains)
        (Remains-bind (drop_read tid acct app) (λ _. acquire_grant tid acct false)
          (drop_read-Remains tid acct app v reads)
          (λ _ app1 w. acquire_grant-Remains tid acct false app1 w))
]

acquire_rw_lock-Remains :
    (tid acct : Text) (r : Bool) (app : Application)
    → IsLocked app
    → Remains (acquire_rw_lock tid acct r app)
unfolding acquire_rw_lock
acquire_rw_lock-Remains tid acct true app v =
    acquire_read-Remains tid acct (init_lock acct app) (init_lock-IsLocked acct app v)
acquire_rw_lock-Remains tid acct false app v =
    acquire_write-Remains tid acct (init_lock acct app) (init_lock-IsLocked acct app v)

-- A change of the caches leaves the locks alone.
set_cache-Remains :
    (tid acct : Text) (x : ℤ) (app : Application)
    → IsLocked app
    → Remains (set_cache tid acct x app)
unfolding set_cache
set_cache-Remains tid acct x app v = elim (Option-cases (lookup tid app.cache)) [
  | inl unknown ↦ rw (unknown, Remains) tt
  | inr (c, known) ↦
      rw (known, Remains) (record { locks = v.locks; unique = v.unique; noted = v.noted })
]

pub store_deposit-Remains :
    (tid acct : Text) (x : ℤ) (app : Application)
    → IsLocked app
    → Remains (store_deposit tid acct x app)
unfolding store_deposit
store_deposit-Remains tid acct x app v = elim (Option-cases (lookup acct (cache_of app tid))) [
  | inl first ↦ rw (first, Remains) (set_cache-Remains tid acct x app v)
  | inr (y, later) ↦ rw (later, Remains) (set_cache-Remains tid acct _ app v)
]

pub store_withdraw-Remains :
    (tid acct : Text) (x : ℤ) (app : Application)
    → IsLocked app
    → Remains (store_withdraw tid acct x app)
unfolding store_withdraw
store_withdraw-Remains tid acct x app v =
    elim (Bool-cases (
      not (is_some (lookup acct app.committed_data))
      && not (is_some (lookup acct (cache_of app tid))))) [
        | inl missing ↦ rw (missing, Remains) v
        | inr known ↦ rw (known, Remains) (set_cache-Remains tid acct _ app v)
      ]

pub deposit-Remains :
    (tid acct : Text) (x : ℤ) (app : Application) → IsLocked app → Remains (deposit tid acct x app)
unfolding deposit
deposit-Remains tid acct x app v =
    Remains-bind (acquire_rw_lock tid acct false app) (λ _. store_deposit tid acct x)
      (acquire_rw_lock-Remains tid acct false app v)
      (λ _ app1 w. store_deposit-Remains tid acct x app1 w)

pub withdraw-Remains :
    (tid acct : Text) (x : ℤ) (app : Application) → IsLocked app → Remains (withdraw tid acct x app)
unfolding withdraw
withdraw-Remains tid acct x app v =
    Remains-bind (acquire_rw_lock tid acct false app) (λ _. store_withdraw tid acct x)
      (acquire_rw_lock-Remains tid acct false app v)
      (λ _ app1 w. store_withdraw-Remains tid acct x app1 w)

pub balance-Remains :
    (tid acct : Text) (app : Application) → IsLocked app → Remains (balance tid acct app)
unfolding balance
balance-Remains tid acct app v =
    Remains-bind (acquire_rw_lock tid acct true app)
      (λ _ app1. done (read_balance tid acct app1) app1)
      (acquire_rw_lock-Remains tid acct true app v) (λ _ app1 w. w)
