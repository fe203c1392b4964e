-- ===== src/Transactions/App.antt =====
-- transactions-demo/server/account.go: the accounts of one branch, with a read-write lock for each.
-- Go's ints are integers here. An operation that has to wait at a lock stops there, in the state
-- that it has reached; it goes on with `acquire_grant` when the lock can be had.
pub mod Money
pub mod Ready
pub mod Views
pub mod Reread
pub mod Holders
pub mod Locks
pub mod Isolation
use dist_sys_demos.Base.{
  ℕ, suc, ◌-◌, Bool, true, false, ◌&&◌, not, Option, none, some, List, [], ◌∷◌, ◌++◌, if◌then◌else◌,
  ◌==◌,
}
use dist_sys_demos.Base.Dict.{Dict, lookup, insert, erase}
use dist_sys_demos.Base.Text.{Text, codes, text_eq, itoa}
use dist_sys_demos.Base.Int.{ℤ, pos, ◌+ℤ◌, ◌-ℤ◌}

-- What `sync.RWMutex` keeps: the read locks that are held, and whether the write lock is.
pub record RwMutex : Type 0 where
  pub readers : ℕ
  pub writer : Bool

-- `none` is a wait.
abbrev pub r_lock : RwMutex → Option RwMutex
r_lock m = if m.writer then none else some (record m { readers = suc m.readers })

abbrev pub w_lock : RwMutex → Option RwMutex
w_lock m =
    if m.writer then none else if m.readers == 0 then some (record m { writer = true }) else none

-- `none` is the fatal error of a lock that is not held.
abbrev pub r_unlock : RwMutex → Option RwMutex
r_unlock m = if m.readers == 0 then none else some (record m { readers = m.readers - 1 })

abbrev pub w_unlock : RwMutex → Option RwMutex
w_unlock m = if m.writer then some (record m { writer = false }) else none

-- `tids` says for each transaction that holds the lock whether it reads.
pub record Lock : Type 0 where
  pub rw_mu : RwMutex
  pub tids : Dict Text Bool

abbrev pub Accounts : Type 0
Accounts = Dict Text ℤ

pub record Application : Type 0 where
  pub locks : Dict Text Lock
  pub tx_lock_info : Dict Text (Dict Text Bool)
  pub committed_data : Accounts
  pub cache : Dict Text Accounts

-- How an operation ends: it returns, it waits for a lock, or the process dies.
pub data Outcome {ℓ} (A : Type ℓ) : Type ℓ where
  done : A → Application → Outcome A
  waits : Application → Outcome A
  panics : Outcome A

infixl 5 ◌>>=◌
abbrev pub ◌>>=◌ {ℓ κ} :
    {A : Type ℓ} {B : Type κ} → Outcome A → (A → Application → Outcome B) → Outcome B
done a app >>= f = f a app
waits app >>= f = waits app
panics >>= f = panics

abbrev pub new_lock : Lock
new_lock = record { rw_mu = record { readers = 0; writer = false }; tids = [] }

-- Reads through a map: what is missing is the zero value.
abbrev pub or_zero : Option ℤ → ℤ
or_zero none = pos 0
or_zero (some v) = v

abbrev pub or_empty {ℓ} : {A : Type ℓ} → Option (List A) → List A
or_empty none = []
or_empty (some l) = l

abbrev pub is_some {ℓ} : {A : Type ℓ} → Option A → Bool
is_some none = false
is_some (some a) = true

abbrev pub cache_of : Application → Text → Accounts
cache_of app tid = or_empty (lookup tid app.cache)

abbrev pub lock_info_of : Application → Text → Dict Text Bool
lock_info_of app tid = or_empty (lookup tid app.tx_lock_info)

-- The mutex object for an account name, made on first use.
unfoldable pub init_lock : Text → Application → Application
init_lock acct app = elim (lookup acct app.locks) [
  | none ↦ record app { locks = insert acct new_lock app.locks }
  | some l ↦ app
]

abbrev pub lock_of : Application → Text → Lock
lock_of app acct = elim (lookup acct app.locks) [ none ↦ new_lock | some l ↦ l ]

-- A write into `app.txLockInfo[tid]`, which panics if that map has not been made.
unfoldable pub note_lock : Text → Text → Bool → Application → Outcome (Unit {0})
note_lock tid acct is_read app = elim (lookup tid app.tx_lock_info) [
  | none ↦ panics
  | some info ↦
      done tt (record app { tx_lock_info = insert tid (insert acct is_read info) app.tx_lock_info })
]

-- `AcquireRWLock` at the point where it calls `RLock` or `Lock`.
unfoldable pub acquire_grant : Text → Text → Bool → Application → Outcome (Unit {0})
acquire_grant tid acct is_read app =
    let l = lock_of app acct in
    elim (if is_read then r_lock l.rw_mu else w_lock l.rw_mu) [
      | none ↦ waits app
      | some m ↦ note_lock tid acct is_read (record app {
        locks = insert acct (record { rw_mu = m; tids = insert tid is_read l.tids }) app.locks;
      })
    ]

-- A held read lock is given back before the write lock is asked for.
unfoldable pub drop_read : Text → Text → Application → Outcome (Unit {0})
drop_read tid acct app =
    let l = lock_of app acct in
    elim (r_unlock l.rw_mu) [
      | none ↦ panics
      | some m ↦ done tt (record app {
        locks = insert acct (record { rw_mu = m; tids = erase tid l.tids }) app.locks;
        tx_lock_info = elim (lookup tid app.tx_lock_info) [
          | none ↦ app.tx_lock_info
          | some info ↦ insert tid (erase acct info) app.tx_lock_info
        ];
      })
    ]

-- The reader's branch of `AcquireRWLock`: only a write lock of its own counts as held.
unfoldable pub acquire_read : Text → Text → Application → Outcome (Unit {0})
acquire_read tid acct app = elim (lookup tid (lock_of app acct).tids) [
  | none ↦ acquire_grant tid acct true app
  | some is_read ↦ if is_read then acquire_grant tid acct true app else done tt app
]

-- The writer's branch.
unfoldable pub acquire_write : Text → Text → Application → Outcome (Unit {0})
acquire_write tid acct app = elim (lookup tid (lock_of app acct).tids) [
  | none ↦ acquire_grant tid acct false app
  | some is_read ↦
      if is_read
      then (drop_read tid acct app >>= λ _. acquire_grant tid acct false)
      else done tt app
]

unfoldable pub acquire_rw_lock : Text → Text → Bool → Application → Outcome (Unit {0})
acquire_rw_lock tid acct is_read app =
    if is_read
    then acquire_read tid acct (init_lock acct app)
    else acquire_write tid acct (init_lock acct app)

abbrev pub reply_ok : Text
reply_ok = codes "OK"

abbrev pub reply_not_found : Text
reply_not_found = codes "NOT FOUND, ABORTED"

-- `Balance`, once it holds the read lock.
unfoldable pub read_balance : Text → Text → Application → Text
read_balance tid acct app =
    let committed = lookup acct app.committed_data in
    let changes = lookup acct (cache_of app tid) in
    if not (is_some committed) && not (is_some changes)
    then reply_not_found
    else acct ++ codes " = " ++ itoa (or_zero committed +ℤ or_zero changes)

unfoldable pub balance : Text → Text → Application → Outcome Text
balance tid acct app =
    acquire_rw_lock tid acct true app >>= λ _ app1. done (read_balance tid acct app1) app1

-- `app.cache[tid][acctName] = v`, which panics if the map has not been made.
unfoldable pub set_cache : Text → Text → ℤ → Application → Outcome Text
set_cache tid acct v app = elim (lookup tid app.cache) [
  | none ↦ panics
  | some c ↦ done reply_ok (record app { cache = insert tid (insert acct v c) app.cache })
]

unfoldable pub store_deposit : Text → Text → ℤ → Application → Outcome Text
store_deposit tid acct amount app = elim (lookup acct (cache_of app tid)) [
  | none ↦ set_cache tid acct amount app
  | some change ↦ set_cache tid acct (change +ℤ amount) app
]

unfoldable pub deposit : Text → Text → ℤ → Application → Outcome Text
deposit tid acct amount app =
    acquire_rw_lock tid acct false app >>= λ _. store_deposit tid acct amount

pub store_withdraw : Text → Text → ℤ → Application → Outcome Text
store_withdraw tid acct amount app =
    let committed = lookup acct app.committed_data in
    let change = lookup acct (cache_of app tid) in
    if not (is_some committed) && not (is_some change)
    then done reply_not_found app
    else set_cache tid acct (or_zero change -ℤ amount) app

unfoldable pub withdraw : Text → Text → ℤ → Application → Outcome Text
withdraw tid acct amount app =
    acquire_rw_lock tid acct false app >>= λ _. store_withdraw tid acct amount

-- One round of `releaseLocks`.
unfoldable pub release_one : Text → Text → Bool → Dict Text Lock → Option (Dict Text Lock)
release_one tid acct is_read locks = elim (lookup acct locks) [
  | none ↦ none
  | some l ↦ elim (if is_read then r_unlock l.rw_mu else w_unlock l.rw_mu) [
    | none ↦ none
    | some m ↦ some (insert acct (record { rw_mu = m; tids = erase tid l.tids }) locks)
  ]
]

unfoldable pub release_all : Text → Dict Text Bool → Dict Text Lock → Option (Dict Text Lock)
release_all tid [] locks = some locks
release_all tid ((acct, is_read) ∷ info) locks = elim (release_one tid acct is_read locks) [
  | none ↦ none
  | some locks1 ↦ release_all tid info locks1
]

-- `none` is a fatal error. A transaction with no lock information has nothing to give back.
unfoldable pub release_locks : Text → Application → Option Application
release_locks tid app = elim (release_all tid (lock_info_of app tid) app.locks) [
  | none ↦ none
  | some locks ↦ some (record app { locks = locks; tx_lock_info = erase tid app.tx_lock_info })
]
