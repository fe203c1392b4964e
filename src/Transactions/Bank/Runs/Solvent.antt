-- ===== src/Transactions/Bank/Runs/Solvent.antt =====
-- transactions-demo/server/rpc.go: no branch of the bank ever has an account below zero.
use dist_sys_demos.Base.{◌<◌, ◌≡◌, refl, sym, subst, Bool, true, false, some, List, [], arith}
use dist_sys_demos.Base.Dict.{Dict, lookup, lookup-nil}
use dist_sys_demos.Base.Text.{Text, text_eq}
use dist_sys_demos.Base.Int.{pos, ◌≤ℤ◌}
use dist_sys_demos.Transactions.App.{Application}
use dist_sys_demos.Transactions.Start.{no_application}
use dist_sys_demos.Transactions.Participant.{prepare}
use dist_sys_demos.Transactions.Participant.Solvency.{balance_of}
use dist_sys_demos.Transactions.Participant.Isolation.Promises.{Promises, Agreed, Agreed-solvent}
use dist_sys_demos.Transactions.Coordinator.{Action}
use dist_sys_demos.Transactions.Bank.{Bank}
use dist_sys_demos.Transactions.Bank.Calls.{tally, tally-nil}
use dist_sys_demos.Transactions.Bank.Runs.{
  Answers, answers_at, Runs, begins, works, votes, decides, gives_up, delivers,
}
use dist_sys_demos.Transactions.Bank.Runs.Kept.{InStep, works-InStep, votes-InStep}
use dist_sys_demos.Transactions.Bank.Runs.Asked.{decides-InStep, gives_up-InStep}
use dist_sys_demos.Transactions.Bank.Runs.Delivered.{delivers-InStep}

begins-InStep :
    (bank : Bank)
    → ((b : Text) (app : Application) → lookup b bank ≡ some app → app ≡ no_application)
    → InStep bank [] [] []
begins-InStep bank h = record {
  agreed = λ b app e.
      subst (λ ps. Agreed b ps app) (sym (nobody b))
        (subst (Agreed b []) (sym (h b app e)) Agreed.begins);
  once = λ b tid. omega (arith, tally-nil b tid true, tally-nil b tid false);
  new = λ b tid y e. tally-nil b tid y;
  alike = λ b b1 tid h1. tally-nil b1 tid false;
  by_yes = λ b tid h1. absurd (omega (arith, tally-nil b tid true));
}
  where
    nobody : (b : Text) → answers_at [] b ≡ []
    nobody b = rw (lookup-nil {V = Promises} b) refl

Runs-InStep :
    {bank : Bank} {said : Answers} {asked : Dict Text Bool} {calls : List Action}
    → Runs bank said asked calls
    → InStep bank said asked calls
Runs-InStep (begins bank h) = begins-InStep bank h
Runs-InStep (works bank said asked calls b tid app app1 r known free w) =
    works-InStep bank said asked calls b tid app app1 (Runs-InStep r) known free w
Runs-InStep (votes bank said asked calls b tid app r known) =
    votes-InStep bank said asked calls b tid app (Runs-InStep r) known
Runs-InStep
      (decides bank said asked calls tid srv srv1 branches answers reply actions r unasked known
        fresh u d e) =
    decides-InStep bank said asked calls tid srv srv1 branches answers reply actions (Runs-InStep r)
      unasked known fresh u d e
Runs-InStep (gives_up bank said asked calls tid srv branches r unasked known u) =
    gives_up-InStep bank said asked calls tid srv branches (Runs-InStep r) unasked known u
Runs-InStep (delivers bank bank1 said asked before after b tid z r e) =
    delivers-InStep bank bank1 said asked before after b tid z (Runs-InStep r) e

-- In every state that the bank reaches, with any number of coordinators and transactions, and with
-- commands, votes, decisions and deliveries in any order, no account of any branch is below zero.
-- While a call of `Commit` for a commit is under way to a branch, `Prepare` would still say yes there,
-- and no call for an abort of the same transaction is under way to any branch.
pub Runs-solvent :
    {bank : Bank} {said : Answers} {asked : Dict Text Bool} {calls : List Action} (b : Text)
    (app : Application)
    → Runs bank said asked calls
    → lookup b bank ≡ some app
    → ((a : Text) → pos 0 ≤ℤ balance_of app.committed_data a)
      × ((tid : Text)
          → 0 < tally b tid true calls
          → (prepare tid app ≡ true) × ((b1 : Text) → tally b1 tid false calls ≡ 0))
Runs-solvent b app r known =
    let v = Runs-InStep r in
    let (solvent, kept) = Agreed-solvent (v.agreed b app known) in
    (solvent, λ tid h. (kept tid (v.by_yes b tid h), λ b1. v.alike b b1 tid h))
