-- ===== src/Transactions/Tests.antt =====
-- Runs of transactions-demo/server on two accounts, and the theorems at them.
use dist_sys_demos.Transactions.Start.{BranchAddr, Branches, read_file}
use dist_sys_demos.Transactions.Start.Files.{file_of, branch_map, read_file-lines}
use dist_sys_demos.Base.{◌++◌, map, List, ◌≡◌, refl, true, false, none, some, [], ◌∷◌, arith}
use dist_sys_demos.Base.Dict.{Dict, lookup}
use dist_sys_demos.Base.Text.{Text, codes, text_eq, text_beq}
use dist_sys_demos.Base.Int.{pos, negsuc}
use dist_sys_demos.Transactions.App.{
  Application, Lock, RwMutex, done, w_lock, acquire_rw_lock, balance, deposit, withdraw,
  release_one,
}
use dist_sys_demos.Transactions.App.Ready.{IsReady}
use dist_sys_demos.Transactions.App.Views.{
  Changes, Deposited, Withdrawn, Balanced, deposit-view, withdraw-view, balance-view,
}
use dist_sys_demos.Transactions.App.Reread.{acquire_rw_lock-release_one}
use dist_sys_demos.Transactions.Coordinator.{reply_commit_ok}
use dist_sys_demos.Transactions.Client.{BranchInfo, Round, ClientAction, process_transaction, trim}
use dist_sys_demos.Transactions.Client.Session.{sent, process_transaction-ends}

abbrev tid : Text
tid = codes "t"

abbrev foo : Text
foo = codes "foo"

abbrev free_mu : RwMutex
free_mu = record { readers = 0; writer = false }

-- The transaction has written `foo`, which held 5, and takes 2 out of it.
abbrev bank : Application
bank = record {
  locks =
      (foo, record { rw_mu = record { readers = 0; writer = true }; tids = (tid, false) ∷ [] })
      ∷ [];
  tx_lock_info = (tid, (foo, false) ∷ []) ∷ [];
  committed_data = (foo, pos 5) ∷ [];
  cache = (tid, (foo, negsuc 1) ∷ []) ∷ [];
}

abbrev paid : Application
paid = record {
  locks = (foo, record { rw_mu = free_mu; tids = [] }) ∷ [];
  tx_lock_info = [];
  committed_data = (foo, pos 3) ∷ [];
  cache = [];
}

bank-IsReady : IsReady tid foo bank
unfolding lookup text_beq
bank-IsReady = record {
  cached = (foo, negsuc 1) ∷ [];
  has_cache = refl;
  noted = (foo, false) ∷ [];
  has_info = refl;
  counted = λ h. cc;
}

deposit-view_example :
    Changes bank.committed_data bank.cache tid foo
      (Deposited tid foo (pos 4) bank.committed_data bank.cache)
      (deposit tid foo (pos 4) bank)
deposit-view_example = deposit-view tid foo (pos 4) bank bank-IsReady

withdraw-view_example :
    Changes bank.committed_data bank.cache tid foo
      (Withdrawn tid foo (pos 4) bank.committed_data bank.cache)
      (withdraw tid foo (pos 4) bank)
withdraw-view_example = withdraw-view tid foo (pos 4) bank bank-IsReady

balance-view_example :
    Changes bank.committed_data bank.cache tid foo
      (Balanced tid foo bank.committed_data bank.cache)
      (balance tid foo bank)
balance-view_example = balance-view tid foo bank bank-IsReady

-- The transaction has read `foo` once.
abbrev reading : Lock
reading = record { rw_mu = record { readers = 1; writer = false }; tids = (tid, true) ∷ [] }

abbrev read_once : Application
read_once = record bank { locks = (foo, reading) ∷ []; tx_lock_info = (tid, (foo, true) ∷ []) ∷ [] }

read_once-lock : lookup foo read_once.locks ≡ some reading
unfolding lookup text_beq
read_once-lock = refl

reading-tid : lookup tid reading.tids ≡ some true
unfolding lookup text_beq
reading-tid = refl

read_once-info : lookup tid read_once.tx_lock_info ≡ some ((foo, true) ∷ [])
unfolding lookup text_beq
read_once-info = refl

acquire_rw_lock-release_one_example :
    (app1 : Application) × (locks2 : Dict Text Lock) × (l2 : Lock) × (acquire_rw_lock tid foo true
        read_once
      ≡ done tt app1)
    × (release_one tid foo true app1.locks ≡ some locks2)
    × (lookup foo locks2 ≡ some l2)
    × (lookup tid l2.tids ≡ none)
    × (l2.rw_mu.readers ≡ 1)
    × (w_lock l2.rw_mu ≡ none)
acquire_rw_lock-release_one_example =
    acquire_rw_lock-release_one tid foo read_once reading ((foo, true) ∷ []) read_once-lock
      reading-tid refl refl read_once-info

abbrev servers : List BranchInfo
servers = record { branch = codes "A"; addr = codes "host"; port = codes "1234" } ∷ []

abbrev before : List Round
before = record { line = codes "BEGIN\r\n"; pick = 0; reply = codes "OK" } ∷ []

abbrev last : Round
last = record { line = codes "COMMIT\n"; pick = 0; reply = reply_commit_ok }

abbrev after : List Round
after = record { line = codes "BALANCE A.foo\n"; pick = 0; reply = codes "A.foo = 3" } ∷ []

process_transaction-ends_example :
    (acts : List ClientAction) × (process_transaction servers true (before ++ last ∷ after)
      ≡ some acts)
    × (sent acts ≡ map (λ r. trim r.line) (before ++ last ∷ []))
unfolding text_beq
process_transaction-ends_example =
    process_transaction-ends servers before after last
      (omega arith, (omega arith, (omega arith, tt))) (refl, tt) refl

-- Two branches, and the port of the second.
abbrev first : Text × BranchAddr
first = (codes "A", record { addr = codes "host1"; port = codes "1234" })

abbrev second : Text × BranchAddr
second = (codes "B", record { addr = codes "host2"; port = codes "4321" })

abbrev unread : Branches
unread = record { branch = codes "B"; port = []; branch_info = [] }

read_file-lines_example :
    (read_file (file_of first (second ∷ []) []) unread
      ≡ some (record unread {
        port = codes "4321";
        branch_info = branch_map (first ∷ second ∷ []) [];
      }))
    × (read_file (file_of first (second ∷ []) (10 ∷ [])) unread ≡ none)
unfolding text_beq
read_file-lines_example = read_file-lines first (second ∷ []) unread (ground arith)
