-- ===== src/Transactions/Bank/Runs.antt =====
-- transactions-demo/server/rpc.go: all branches and all coordinators together. Commands, votes,
-- decisions and the calls of `Commit` come in any order; a call that has been made is carried out
-- later, or never, but not twice.
pub mod Kept
pub mod Asked
pub mod Delivered
pub mod Solvent
use dist_sys_demos.Base.{◌≡◌, Bool, true, false, Option, none, some, List, [], ◌∷◌, ◌++◌}
use mathlib.Core.List.{Permᴰ}
use dist_sys_demos.Base.Dict.{Dict, Unique, lookup, insert, erase}
use dist_sys_demos.Base.Text.{Text, text_eq}
use dist_sys_demos.Transactions.App.{Application, or_empty}
use dist_sys_demos.Transactions.Start.{no_application}
use dist_sys_demos.Transactions.Participant.{prepare}
use dist_sys_demos.Transactions.Participant.Isolation.Steps.{Work}
use dist_sys_demos.Transactions.Participant.Isolation.Promises.{Promises, promised}
use dist_sys_demos.Transactions.Coordinator.{
  Server, Action, call_commit, do_abort, two_phase_commit,
}
use dist_sys_demos.Transactions.Bank.{Bank, run_commit}

-- What each branch has answered to `Prepare`, for the transactions that have not ended there.
abbrev pub Answers : Type 0
Answers = Dict Text Promises

abbrev pub answers_at : Answers → Text → Promises
answers_at said b = or_empty (lookup b said)

-- The votes as they stand; a branch that has not answered counts as a no.
abbrev pub votes_said : Text → Answers → Dict Text Bool → List Bool
votes_said tid said [] = []
votes_said tid said ((b, x) ∷ branches) =
    promised tid (answers_at said b) ∷ votes_said tid said branches

-- The branches, their answers, the transactions whose end has been asked for, and the calls that
-- have been made and not yet been carried out. A client asks for the end of a transaction once. A
-- branch that has said yes takes no more commands of the transaction.
pub data Runs : Bank → Answers → Dict Text Bool → List Action → Type 0 where
  begins :
      (bank : Bank)
      → ((b : Text) (app : Application) → lookup b bank ≡ some app → app ≡ no_application)
      → Runs bank [] [] []
  works :
      (bank : Bank) (said : Answers) (asked : Dict Text Bool) (calls : List Action) (b tid : Text)
      (app app1 : Application)
      → Runs bank said asked calls
      → lookup b bank ≡ some app
      → promised tid (answers_at said b) ≡ false
      → Work b tid app app1
      → Runs (insert b app1 bank) said asked calls
  votes :
      (bank : Bank) (said : Answers) (asked : Dict Text Bool) (calls : List Action) (b tid : Text)
      (app : Application)
      → Runs bank said asked calls
      → lookup b bank ≡ some app
      → Runs bank (insert b (insert tid (prepare tid app) (answers_at said b)) said) asked calls
  decides :
      (bank : Bank) (said : Answers) (asked : Dict Text Bool) (calls : List Action) (tid : Text)
      (srv srv1 : Server) (branches : Dict Text Bool) (answers : List Bool) (reply : Text)
      (actions : List Action)
      → Runs bank said asked calls
      → lookup tid asked ≡ none
      → lookup tid srv.related_branches ≡ some branches
      → lookup tid srv.can_commit ≡ some 0
      → Unique branches
      → Permᴰ answers (votes_said tid said branches)
      → two_phase_commit tid answers srv ≡ some (srv1, reply, actions)
      → Runs bank said (insert tid true asked) (calls ++ actions)
  gives_up :
      (bank : Bank) (said : Answers) (asked : Dict Text Bool) (calls : List Action) (tid : Text)
      (srv : Server) (branches : Dict Text Bool)
      → Runs bank said asked calls
      → lookup tid asked ≡ none
      → lookup tid srv.related_branches ≡ some branches
      → Unique branches
      → Runs bank said (insert tid true asked) (calls ++ (do_abort tid srv).1)
  delivers :
      (bank bank1 : Bank) (said : Answers) (asked : Dict Text Bool) (before after : List Action)
      (b tid : Text) (do_commit : Bool)
      → Runs bank said asked (before ++ call_commit b tid do_commit ∷ after)
      → run_commit b tid do_commit bank ≡ some bank1
      → Runs bank1 (insert b (erase tid (answers_at said b)) said) asked (before ++ after)
