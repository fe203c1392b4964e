-- ===== src/Transactions/App/Holders.antt =====
-- transactions-demo/server/account.go: how many transactions are listed with a lock in each mode.
use dist_sys_demos.Base.{
  ℕ, suc, ◌+◌, ◌≤◌, ◌<◌, ◌≡◌, Bool, true, false, not, some, [], ◌∷◌, arith, if◌then◌else◌,
}
use dist_sys_demos.Base.Dict.{Dict, lookup, insert, erase}
use dist_sys_demos.Base.Text.{Text, text_eq}

abbrev pub same_mode : Bool → Bool → Bool
same_mode true r = r
same_mode false r = not r

-- The transactions that are listed as readers, or as writers.
unfoldable pub holders : Bool → Dict Text Bool → ℕ
holders b [] = 0
holders b ((tid, r) ∷ tids) = let n = holders b tids in if same_mode b r then suc n else n

pub holders-insert :
    (b r : Bool) (k : Text) (m : Dict Text Bool)
    → holders b (insert k r m) ≤ holders b m + (if same_mode b r then 1 else 0)
unfolding holders insert
holders-insert b r k [] = ground arith
holders-insert b r k ((j, w) ∷ m) = ground (arith, holders-insert b r k m)

pub holders-erase : (b : Bool) (k : Text) (m : Dict Text Bool) → holders b (erase k m) ≤ holders b m
unfolding holders erase
holders-erase b k [] = omega arith
holders-erase b k ((j, w) ∷ m) = ground (arith, holders-erase b k m)

pub holders-held :
    (b : Bool) (k : Text) (m : Dict Text Bool)
    → lookup k m ≡ some b
    → holders b (erase k m) < holders b m
unfolding holders erase lookup
holders-held b k [] e = cc
holders-held true k ((j, w) ∷ m) e = ground (arith, holders-erase true k m, holders-held true k m)
holders-held false k ((j, w) ∷ m) e =
    ground (arith, holders-erase false k m, holders-held false k m)
