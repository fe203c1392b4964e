-- ===== src/Transactions/Bank.antt =====
-- transactions-demo/server/rpc.go: the coordinator's calls of the branches, carried out there. The
-- calls of one round go to different branches, so that their order does not matter.
pub mod Round
pub mod Calls
pub mod Runs
mod Tests
use dist_sys_demos.Base.{Bool, true, false, Option, none, some, List, [], ◌∷◌}
use dist_sys_demos.Base.Dict.{Dict, lookup, insert}
use dist_sys_demos.Base.Text.{Text, text_eq}
use dist_sys_demos.Transactions.App.{Application}
use dist_sys_demos.Transactions.Participant.{prepare, commit}
use dist_sys_demos.Transactions.Coordinator.{Action, call_commit}

-- The branches that can be reached, by name.
abbrev pub Bank : Type 0
Bank = Dict Text Application

-- A call that fails leaves the reply's `CanCommit` as it was made.
abbrev pub vote_of : Text → Bank → Text → Bool
vote_of tid bank b = elim (lookup b bank) [ none ↦ false | some app ↦ prepare tid app ]

-- The goroutines that call `Server.Prepare`.
pub votes_of : Text → Bank → Dict Text Bool → List Bool
votes_of tid bank [] = []
votes_of tid bank ((b, x) ∷ branches) = vote_of tid bank b ∷ votes_of tid bank branches

-- One call of `Server.Commit`; a call that fails changes nothing. `none` is a fatal error there.
abbrev pub run_commit : Text → Text → Bool → Bank → Option Bank
run_commit b tid do_commit bank = elim (lookup b bank) [
  | none ↦ some bank
  | some app ↦ elim (commit do_commit tid app) [
    | none ↦ none
    | some (app1, replied) ↦ some (insert b app1 bank)
  ]
]

-- The calls of a round. `Prepare` changes nothing, and the goroutines concern the coordinator only.
pub carry_out : List Action → Bank → Option Bank
carry_out [] bank = some bank
carry_out (call_commit b tid do_commit ∷ actions) bank = elim (run_commit b tid do_commit bank) [
  | none ↦ none
  | some bank1 ↦ carry_out actions bank1
]
carry_out (_ ∷ actions) bank = carry_out actions bank
