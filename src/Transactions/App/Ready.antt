-- ===== src/Transactions/App/Ready.antt =====
-- transactions-demo/server/account.go: `AcquireRWLock` does not fail for a transaction whose maps
-- have been made.
use dist_sys_demos.Base.{◌-◌, ◌≡◌, ◌≢◌, sym, ap, ◌∙◌, subst, Bool, true, false, some, arith}
use dist_sys_demos.Base.Dict.{lookup-insert_self, Dict, lookup, insert, erase, lookup-insert}
use dist_sys_demos.Base.Text.{Text, text_eq, text_beq_iff}
use dist_sys_demos.Transactions.App.{
  ◌>>=◌, Application, Accounts, Outcome, done, waits, panics, lock_of, new_lock, init_lock,
  note_lock, acquire_grant, drop_read, acquire_read, acquire_write, acquire_rw_lock,
}

-- The transaction's maps have been made, and if it is listed as a reader of the account then the
-- lock counts a reader.
pub record IsReady (tid acct : Text) (app : Application) : Type 0 where
  pub cached : Accounts
  pub has_cache : lookup tid app.cache ≡ some cached
  pub noted : Dict Text Bool
  pub has_info : lookup tid app.tx_lock_info ≡ some noted
  pub counted :
      lookup tid (lock_of app acct).tids ≡ some true → (lock_of app acct).rw_mu.readers ≢ 0

abbrev pub Runs : {A : Type 0} → Outcome A → Type 0
Runs (done a app) = Unit
Runs (waits app) = Unit
Runs panics = ⊥

acquire_grant-Runs :
    (tid acct : Text) (is_read : Bool) (app : Application) (info : Dict Text Bool)
    → lookup tid app.tx_lock_info ≡ some info
    → Runs (acquire_grant tid acct is_read app)
unfolding acquire_grant note_lock
acquire_grant-Runs tid acct is_read app info h = ground arith

drop_read-done :
    (tid acct : Text) (app : Application) (info : Dict Text Bool)
    → lookup tid app.tx_lock_info ≡ some info
    → (lock_of app acct).rw_mu.readers ≢ 0
    → (app1 : Application) × (drop_read tid acct app ≡ done tt app1)
      × (lookup tid app1.tx_lock_info ≡ some (erase acct info))
unfolding drop_read
drop_read-done tid acct app info h some_reader =
    let l = lock_of app acct in
    let m = record (l.rw_mu) { readers = l.rw_mu.readers - 1 } in
    (
      record app {
        locks = insert acct (record { rw_mu = m; tids = erase tid l.tids }) app.locks;
        tx_lock_info = insert tid (erase acct info) app.tx_lock_info;
      },
      ground (arith, h),
      lookup-insert_self tid (erase acct info) app.tx_lock_info,
    )

drop_acquire-Runs :
    (tid acct : Text) (app : Application) (info : Dict Text Bool)
    → lookup tid app.tx_lock_info ≡ some info
    → (lock_of app acct).rw_mu.readers ≢ 0
    → Runs (drop_read tid acct app >>= λ _. acquire_grant tid acct false)
drop_acquire-Runs tid acct app info h some_reader =
    let (app1, e, k) = drop_read-done tid acct app info h some_reader in
    rw e (acquire_grant-Runs tid acct false app1 (erase acct info) k)

init_lock-same :
    (acct : Text) (app : Application)
    → let app1 = init_lock acct app in
      (lock_of app1 acct ≡ lock_of app acct) × (app1.tx_lock_info ≡ app.tx_lock_info)
unfolding init_lock
init_lock-same acct app =
    ground (arith, lookup-insert acct acct new_lock app.locks, text_beq_iff acct acct)

-- A transaction whose maps have been made gets the lock or waits for it.
pub acquire_rw_lock-Runs :
    (tid acct : Text) (is_read : Bool) (app : Application)
    → IsReady tid acct app
    → Runs (acquire_rw_lock tid acct is_read app)
unfolding acquire_rw_lock acquire_read acquire_write
acquire_rw_lock-Runs tid acct is_read app ready =
    let app1 = init_lock acct app in
    let (sl, si) = init_lock-same acct app in
    let info1 : lookup tid app1.tx_lock_info ≡ some ready.noted =
      ap (lookup tid) si ∙ ready.has_info in
    let counted1 =
      subst (λ l. lookup tid l.tids ≡ some true → l.rw_mu.readers ≢ 0) (sym sl) ready.counted in
    ground (
      arith,
      acquire_grant-Runs tid acct true app1 ready.noted info1,
      acquire_grant-Runs tid acct false app1 ready.noted info1,
      counted1,
      drop_acquire-Runs tid acct app1 ready.noted info1,
    )
