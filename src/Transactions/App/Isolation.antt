-- ===== src/Transactions/App/Isolation.antt =====
-- transactions-demo/server/account.go: the locks and the notes of all transactions agree, and an
-- operation of one transaction leaves alone what the others have noted and cached.
pub mod Relist
pub mod Acquire
pub mod Stores
pub mod Release
pub mod Waits
pub mod Upgrade
use dist_sys_demos.Base.{
  ◌≡◌, refl, ◌∙◌, Bool, true, false, Option, none, some, List, [], arith, if◌then◌else◌, Eq,
}
use dist_sys_demos.Base.Dict.{
  Dict, Unique, lookup, insert, erase, lookup-insert, lookup-erase, lookup-nil,
}
use dist_sys_demos.Base.Text.{Text, text_eq, text_beq}
use dist_sys_demos.Base.Int.{ℤ}
use dist_sys_demos.Transactions.App.Locks.{IsLocked}
use dist_sys_demos.Transactions.App.{
  Lock, Application, Outcome, done, waits, panics, ◌>>=◌, or_empty, lock_of, cache_of, lock_info_of,
}

-- What a transaction has noted is how the locks list it, and it has noted as written every account
-- that it has changed.
pub record IsSound (app : Application) : Type 0 where
  pub locked : IsLocked app
  pub agrees :
      (tid acct : Text) → lookup acct (lock_info_of app tid) ≡ lookup tid (lock_of app acct).tids
  pub cached :
      (tid acct : Text) (v : ℤ)
      → lookup acct (cache_of app tid) ≡ some v
      → lookup acct (lock_info_of app tid) ≡ some false
  pub unique : (tid : Text) → Unique (cache_of app tid)

-- The caches and the notes of all transactions but one.
abbrev pub OthersSame : Text → Application → Application → Type 0
OthersSame tid app app1 =
    (t : Text)
    → text_beq tid t ≡ false
    → (cache_of app1 t ≡ cache_of app t) × (lock_info_of app1 t ≡ lock_info_of app t)

-- The committed balances too.
abbrev pub KeepsOthers : Text → Application → Application → Type 0
KeepsOthers tid app app1 = (app1.committed_data ≡ app.committed_data) × OthersSame tid app app1

-- An operation of a transaction, and what holds when it returns.
abbrev pub Does : {A : Type 0} → Text → (Application → Type 0) → Application → Outcome A → Type 0
Does tid P app (done a app1) = IsSound app1 × KeepsOthers tid app app1 × P app1
Does tid P app (waits app1) = IsSound app1 × KeepsOthers tid app app1
Does tid P app panics = Unit

pub KeepsOthers-trans :
    (tid : Text) (app app1 app2 : Application)
    → KeepsOthers tid app app1
    → KeepsOthers tid app1 app2
    → KeepsOthers tid app app2
KeepsOthers-trans tid app app1 app2 (m, h) (n, k) =
    (n ∙ m, λ t other. ((k t other).0 ∙ (h t other).0, (k t other).1 ∙ (h t other).1))

-- An operation after others of the same transaction.
pub Does-after :
    {A : Type 0} (tid : Text) (P : Application → Type 0) (app app1 : Application) (o : Outcome A)
    → KeepsOthers tid app app1
    → Does tid P app1 o
    → Does tid P app o
Does-after tid P app app1 (done a app2) k (v, k1, p) =
    (v, KeepsOthers-trans tid app app1 app2 k k1, p)
Does-after tid P app app1 (waits app2) k (v, k1) = (v, KeepsOthers-trans tid app app1 app2 k k1)
Does-after tid P app app1 panics k h = tt

pub Does-bind :
    {A B : Type 0} (tid : Text) (P Q : Application → Type 0) (app : Application) (o : Outcome A)
    (f : A → Application → Outcome B)
    → Does tid P app o
    → ((a : A) (app1 : Application) → IsSound app1 → P app1 → Does tid Q app1 (f a app1))
    → Does tid Q app (o >>= f)
Does-bind tid P Q app (done a app1) f (v, k, p) h =
    Does-after tid Q app app1 (f a app1) k (h a app1 v p)
Does-bind tid P Q app (waits app1) f (v, k) h = (v, k)
Does-bind tid P Q app panics f h k = tt

-- Reads through the maps after a write or a removal.
pub or_empty-insert :
    {A : Type 0} (k j : Text) (v : List A) (m : Dict Text (List A))
    → or_empty (lookup j (insert k v m)) ≡ (if text_beq k j then v else or_empty (lookup j m))
or_empty-insert k j v m = ground (arith, lookup-insert k j v m)

pub or_empty-erase :
    {A : Type 0} (k j : Text) (m : Dict Text (List A))
    → or_empty (lookup j (erase k m)) ≡ (if text_beq k j then [] else or_empty (lookup j m))
or_empty-erase k j m = ground (arith, lookup-erase k j m)

pub lock_of-insert :
    (acct acct1 : Text) (l : Lock) (app : Application)
    → lock_of (record app { locks = insert acct l app.locks }) acct1
      ≡ (if text_beq acct acct1 then l else lock_of app acct1)
lock_of-insert acct acct1 l app = ground (arith, lookup-insert acct acct1 l app.locks)
