-- ===== src/Transactions/App/Isolation/Waits.antt =====
-- transactions-demo/server/account.go: where an operation waits, the rest of it is still to do.
use dist_sys_demos.Base.{
  ◌≡◌, refl, Bool, true, false, none, arith, if◌then◌else◌, Option-cases, inl, inr,
}
use dist_sys_demos.Base.Dict.{lookup}
use dist_sys_demos.Base.Text.{Text, text_eq}
use dist_sys_demos.Base.Int.{ℤ}
use dist_sys_demos.Transactions.App.{
  Application, Outcome, done, waits, panics, ◌>>=◌, r_lock, w_lock, lock_of, init_lock, note_lock,
  acquire_grant, drop_read, acquire_read, acquire_write, acquire_rw_lock, set_cache, store_deposit,
  store_withdraw, deposit, withdraw, balance, read_balance,
}

-- If the operation waits, then in the state in which it waits the grant still does.
abbrev pub StillWaits : {A : Type 0} → Text → Text → Bool → Outcome A → Type 0
StillWaits tid acct r (done a app) = Unit
StillWaits tid acct r (waits app) = acquire_grant tid acct r app ≡ waits app
StillWaits tid acct r panics = Unit

acquire_grant-waits :
    (tid acct : Text) (r : Bool) (app : Application)
    → (if r then r_lock (lock_of app acct).rw_mu else w_lock (lock_of app acct).rw_mu) ≡ none
    → acquire_grant tid acct r app ≡ waits app
unfolding acquire_grant
acquire_grant-waits tid acct r app busy = rw (busy, acquire_grant) refl

acquire_grant-StillWaits :
    (tid acct : Text) (r : Bool) (app : Application)
    → StillWaits tid acct r (acquire_grant tid acct r app)
unfolding acquire_grant note_lock
acquire_grant-StillWaits tid acct r app =
    let l = lock_of app acct in
    elim (Option-cases (if r then r_lock l.rw_mu else w_lock l.rw_mu)) [
      | inl busy ↦ rw (busy, StillWaits) (acquire_grant-waits tid acct r app busy)
      | inr (mu, free) ↦ elim (Option-cases (lookup tid app.tx_lock_info)) [
        | inl unknown ↦ rw (free, unknown, StillWaits) tt
        | inr (info, i) ↦ rw (free, i, StillWaits) tt
      ]
    ]

-- What comes after the lock does not wait.
StillWaits-bind :
    {A B : Type 0} (tid acct : Text) (r : Bool) (o : Outcome A) (f : A → Application → Outcome B)
    → StillWaits tid acct r o
    → ((a : A) (app : Application) → StillWaits tid acct r (f a app))
    → StillWaits tid acct r (o >>= f)
StillWaits-bind tid acct r (done a app) f h k = k a app
StillWaits-bind tid acct r (waits app) f h k = h
StillWaits-bind tid acct r panics f h k = tt

drop_read-StillWaits :
    (tid acct : Text) (app : Application) → StillWaits tid acct false (drop_read tid acct app)
unfolding drop_read
drop_read-StillWaits tid acct app = ground arith

acquire_rw_lock-StillWaits :
    (tid acct : Text) (r : Bool) (app : Application)
    → StillWaits tid acct r (acquire_rw_lock tid acct r app)
unfolding acquire_rw_lock acquire_read acquire_write
acquire_rw_lock-StillWaits tid acct true app =
    let app1 = init_lock acct app in
    elim (Option-cases (lookup tid (lock_of app1 acct).tids)) [
      | inl fresh ↦ rw (fresh, StillWaits) (acquire_grant-StillWaits tid acct true app1)
      | inr (true, reads) ↦ rw (reads, StillWaits) (acquire_grant-StillWaits tid acct true app1)
      | inr (false, writes) ↦ rw (writes, StillWaits) tt
    ]
acquire_rw_lock-StillWaits tid acct false app =
    let app1 = init_lock acct app in
    elim (Option-cases (lookup tid (lock_of app1 acct).tids)) [
      | inl fresh ↦ rw (fresh, StillWaits) (acquire_grant-StillWaits tid acct false app1)
      | inr (true, reads) ↦
          rw (reads, StillWaits)
            (StillWaits-bind tid acct false (drop_read tid acct app1)
              (λ _. acquire_grant tid acct false) (drop_read-StillWaits tid acct app1)
              (λ _. acquire_grant-StillWaits tid acct false))
      | inr (false, writes) ↦ rw (writes, StillWaits) tt
    ]

set_cache-StillWaits :
    (tid acct : Text) (r : Bool) (x : ℤ) (app : Application)
    → StillWaits tid acct r (set_cache tid acct x app)
unfolding set_cache
set_cache-StillWaits tid acct r x app = ground arith

store_deposit-StillWaits :
    (tid acct : Text) (r : Bool) (x : ℤ) (app : Application)
    → StillWaits tid acct r (store_deposit tid acct x app)
unfolding store_deposit set_cache
store_deposit-StillWaits tid acct r x app = ground arith

store_withdraw-StillWaits :
    (tid acct : Text) (r : Bool) (x : ℤ) (app : Application)
    → StillWaits tid acct r (store_withdraw tid acct x app)
unfolding store_withdraw set_cache
store_withdraw-StillWaits tid acct r x app = ground arith

pub deposit-StillWaits :
    (tid acct : Text) (x : ℤ) (app : Application)
    → StillWaits tid acct false (deposit tid acct x app)
unfolding deposit
deposit-StillWaits tid acct x app =
    StillWaits-bind tid acct false (acquire_rw_lock tid acct false app)
      (λ _. store_deposit tid acct x) (acquire_rw_lock-StillWaits tid acct false app)
      (λ _. store_deposit-StillWaits tid acct false x)

pub withdraw-StillWaits :
    (tid acct : Text) (x : ℤ) (app : Application)
    → StillWaits tid acct false (withdraw tid acct x app)
unfolding withdraw
withdraw-StillWaits tid acct x app =
    StillWaits-bind tid acct false (acquire_rw_lock tid acct false app)
      (λ _. store_withdraw tid acct x) (acquire_rw_lock-StillWaits tid acct false app)
      (λ _. store_withdraw-StillWaits tid acct false x)

pub balance-StillWaits :
    (tid acct : Text) (app : Application) → StillWaits tid acct true (balance tid acct app)
unfolding balance
balance-StillWaits tid acct app =
    StillWaits-bind tid acct true (acquire_rw_lock tid acct true app)
      (λ _ app1. done (read_balance tid acct app1) app1)
      (acquire_rw_lock-StillWaits tid acct true app) (λ _ app1. tt)
