-- ===== src/Transactions/App/Locks.antt =====
-- transactions-demo/server/account.go: the locks are what the transactions that are listed hold.
pub mod Steps
pub mod Operations
pub mod Release
use dist_sys_demos.Base.{
  ◌≢◌, ℕ, zero, suc, ◌+◌, ◌-◌, ◌≤◌, ◌<◌, ◌≡◌, refl, sym, ap, ◌∙◌, subst, Bool, true, false, not,
  Option, none, some, List, [], ◌∷◌, arith, if◌then◌else◌, Bool-cases, Option-cases, inl, inr, Eq,
}
use dist_sys_demos.Base.Dict.{
  Dict, Unique, Unique-insert, Unique-erase, lookup, insert, erase, lookup-insert, lookup-erase,
  lookup-cons,
}
use dist_sys_demos.Base.Text.{Text, text_eq, text_beq, text_beq_iff}
use dist_sys_demos.Transactions.App.Holders.{holders, holders-insert, holders-erase, holders-held}
use dist_sys_demos.Transactions.App.{
  RwMutex, Lock, Application, Outcome, done, waits, panics, r_lock, w_lock, r_unlock, w_unlock,
  new_lock, lock_of, init_lock, note_lock, acquire_grant, drop_read, acquire_read, acquire_write,
  acquire_rw_lock, release_one, release_all,
}

-- There are at least as many read locks as readers are listed, a write lock if a writer is, and
-- never both kinds.
pub record IsHeld (l : Lock) : Type 0 where
  pub readers : holders true l.tids ≤ l.rw_mu.readers
  pub writers : holders false l.tids ≤ (if l.rw_mu.writer then 1 else 0)
  pub apart : l.rw_mu.writer ≡ true → l.rw_mu.readers ≡ 0

-- The transaction is listed with the account's lock, in the given mode.
abbrev pub Holds : Dict Text Lock → Text → Text → Bool → Type 0
Holds locks acct tid r = (l : Lock) × (lookup acct locks ≡ some l) × (lookup tid l.tids ≡ some r)

abbrev pub AllHeld : Dict Text Lock → Type 0
AllHeld locks = (acct : Text) (l : Lock) → lookup acct locks ≡ some l → IsHeld l

-- All locks are held as listed, and what a transaction has noted it holds.
pub record IsLocked (app : Application) : Type 0 where
  pub locks : AllHeld app.locks
  pub unique :
      (tid : Text) (info : Dict Text Bool) → lookup tid app.tx_lock_info ≡ some info → Unique info
  pub noted :
      (tid acct : Text) (info : Dict Text Bool) (r : Bool)
      → lookup tid app.tx_lock_info ≡ some info
      → lookup acct info ≡ some r
      → Holds app.locks acct tid r

pub new_lock-IsHeld : IsHeld new_lock
unfolding holders
new_lock-IsHeld = record { readers = omega arith; writers = omega arith; apart = λ h. refl }

-- A grant.
pub grant-IsHeld :
    (tid : Text) (r : Bool) (l : Lock) (mu : RwMutex)
    → IsHeld l
    → (if r then r_lock l.rw_mu else w_lock l.rw_mu) ≡ some mu
    → IsHeld (record { rw_mu = mu; tids = insert tid r l.tids })
grant-IsHeld tid true l mu v e = record {
  readers = ground (arith, v.readers, holders-insert true true tid l.tids);
  writers = ground (arith, v.writers, holders-insert false true tid l.tids);
  apart = ground arith;
}
grant-IsHeld tid false l mu v e = record {
  readers = ground (arith, v.readers, holders-insert true false tid l.tids);
  writers = ground (arith, v.writers, holders-insert false false tid l.tids);
  apart = ground arith;
}

-- A release of a lock that is held.
pub release-IsHeld :
    (tid : Text) (r : Bool) (l : Lock)
    → IsHeld l
    → lookup tid l.tids ≡ some r
    → (mu : RwMutex) × ((if r then r_unlock l.rw_mu else w_unlock l.rw_mu) ≡ some mu)
      × IsHeld (record { rw_mu = mu; tids = erase tid l.tids })
release-IsHeld tid true l v e =
    let fewer = holders-held true tid l.tids e in
    (
      record l.rw_mu { readers = l.rw_mu.readers - 1 },
      ground (arith, v.readers),
      record {
        readers = omega (arith, v.readers);
        writers = omega (arith, v.writers, holders-erase false tid l.tids);
        apart = λ h. omega (arith, v.apart h);
      },
    )
release-IsHeld tid false l v e =
    let fewer = holders-held false tid l.tids e in
    (
      record l.rw_mu { writer = false },
      ground (arith, v.writers),
      record {
        readers = omega (arith, v.readers, holders-erase true tid l.tids);
        writers = ground (arith, v.writers);
        apart = ground arith;
      },
    )
