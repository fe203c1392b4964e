-- ===== src/Transactions/App/Money.antt =====
-- transactions-demo/server/account.go: what the operations do to the balances that a transaction
-- sees, and that the locks leave the money alone.
use dist_sys_demos.Base.{◌≡◌, ◌∙◌, Bool, true, false, some, arith, Bool-cases, inl, inr}
use dist_sys_demos.Base.Text.{Text, text_eq}
use dist_sys_demos.Transactions.App.{
  ◌>>=◌, release_locks, Application, Outcome, done, waits, panics, init_lock, note_lock,
  acquire_grant, drop_read, acquire_read, acquire_write, acquire_rw_lock,
}

-- The operation has touched no balance, however it ended.
abbrev pub KeepsMoney : {A : Type 0} → Application → Outcome A → Type 0
KeepsMoney app (done a app1) = (app1.committed_data ≡ app.committed_data) × (app1.cache ≡ app.cache)
KeepsMoney app (waits app1) = (app1.committed_data ≡ app.committed_data) × (app1.cache ≡ app.cache)
KeepsMoney app panics = Unit

acquire_grant-keeps :
    (tid acct : Text) (is_read : Bool) (app : Application)
    → KeepsMoney app (acquire_grant tid acct is_read app)
unfolding acquire_grant note_lock
acquire_grant-keeps tid acct is_read app = ground arith

drop_read-keeps : (tid acct : Text) (app : Application) → KeepsMoney app (drop_read tid acct app)
unfolding drop_read
drop_read-keeps tid acct app = ground arith

init_lock-keeps :
    (acct : Text) (app : Application)
    → let app1 = init_lock acct app in
      (app1.committed_data ≡ app.committed_data) × (app1.cache ≡ app.cache)
unfolding init_lock
init_lock-keeps acct app = ground arith

KeepsMoney-trans :
    {A : Type 0} (app app1 : Application) (o : Outcome A)
    → (app1.committed_data ≡ app.committed_data) × (app1.cache ≡ app.cache)
    → KeepsMoney app1 o
    → KeepsMoney app o
KeepsMoney-trans app app1 (done a app2) same h = (h.0 ∙ same.0, h.1 ∙ same.1)
KeepsMoney-trans app app1 (waits app2) same h = (h.0 ∙ same.0, h.1 ∙ same.1)
KeepsMoney-trans app app1 panics same h = tt

KeepsMoney-bind :
    {A B : Type 0} (app : Application) (m : Outcome A) (f : A → Application → Outcome B)
    → KeepsMoney app m
    → ((a : A) (app1 : Application) → KeepsMoney app1 (f a app1))
    → KeepsMoney app (m >>= f)
KeepsMoney-bind app (done a app1) f h k = KeepsMoney-trans app app1 (f a app1) h (k a app1)
KeepsMoney-bind app (waits app1) f h k = h
KeepsMoney-bind app panics f h k = tt

acquire_read-keeps :
    (tid acct : Text) (app : Application) → KeepsMoney app (acquire_read tid acct app)
unfolding acquire_read
acquire_read-keeps tid acct app = ground (arith, acquire_grant-keeps tid acct true app)

acquire_write-keeps :
    (tid acct : Text) (app : Application) → KeepsMoney app (acquire_write tid acct app)
unfolding acquire_write
acquire_write-keeps tid acct app = ground (
  arith,
  acquire_grant-keeps tid acct false app,
  KeepsMoney-bind app (drop_read tid acct app) (λ (x : Unit {0}). acquire_grant tid acct false)
      (drop_read-keeps tid acct app) (λ (x : Unit {0}). acquire_grant-keeps tid acct false),
)

-- Acquiring a lock changes no balance, whether it succeeds or has to wait.
pub acquire_rw_lock-keeps :
    (tid acct : Text) (is_read : Bool) (app : Application)
    → KeepsMoney app (acquire_rw_lock tid acct is_read app)
unfolding acquire_rw_lock
acquire_rw_lock-keeps tid acct is_read app = elim (Bool-cases is_read) [
  | inl reads ↦ rw reads (KeepsMoney-trans app app1 _ same (acquire_read-keeps tid acct app1))
  | inr writes ↦ rw writes (KeepsMoney-trans app app1 _ same (acquire_write-keeps tid acct app1))
]
  where
    app1 : Application
    app1 = init_lock acct app

    same : (app1.committed_data ≡ app.committed_data) × (app1.cache ≡ app.cache)
    same = init_lock-keeps acct app

pub release_locks-money :
    (tid : Text) (app app1 : Application)
    → release_locks tid app ≡ some app1
    → (app1.committed_data ≡ app.committed_data) × (app1.cache ≡ app.cache)
unfolding release_locks
release_locks-money tid app app1 h = ground arith
