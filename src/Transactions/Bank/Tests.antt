-- ===== src/Transactions/Bank/Tests.antt =====
-- A bank of two branches, of which one holds a change of the transaction that is committed.
use mathlib.Core.List.{Permᴰ}
use dist_sys_demos.Base.{
  ◌<◌, subst, ◌≡◌, refl, Bool, true, false, some, List, [], ◌∷◌, arith, if◌then◌else◌,
}
use dist_sys_demos.Base.Dict.{erase, Dict, Unique, lookup, insert}
use dist_sys_demos.Base.Text.{Text, codes, text_eq, text_beq}
use dist_sys_demos.Transactions.App.{Application, release_one, release_all, release_locks}
use dist_sys_demos.Transactions.Start.{no_application}
use dist_sys_demos.Base.Int.{pos, ◌≤ℤ◌, ◌+ℤ◌}
use dist_sys_demos.Transactions.Participant.{can_commit, prepare, commit, add_changes}
use dist_sys_demos.Transactions.Participant.Isolation.Steps.{begins}
use dist_sys_demos.Transactions.Coordinator.{
  Server, Action, call_prepare, call_commit, go_await_committed, two_phase_commit, reply_commit_ok,
  reply_aborted,
}
use dist_sys_demos.Transactions.Coordinator.Decision.{all_yes, two_phase_commit-atomic}
use dist_sys_demos.Transactions.Bank.Runs.{Answers, Runs}
use dist_sys_demos.Transactions.Bank.Runs.Solvent.{Runs-solvent}
use dist_sys_demos.Transactions.Bank.Calls.{tally}
use dist_sys_demos.Transactions.Participant.Solvency.{balance_of}
use dist_sys_demos.Transactions.Participant.Examples.{paid, put_t, t, after, after-Run}
use dist_sys_demos.Transactions.Bank.{Bank, votes_of, carry_out}
use dist_sys_demos.Transactions.Bank.Round.{
  AllRun, AllSettled, insert-AllRun, two_phase_commit-AllSettled,
}

abbrev nobody : Bank
nobody = []

abbrev bank : Bank
bank = insert (codes "A") after (insert (codes "B") no_application nobody)

nobody-AllRun : AllRun nobody
unfolding lookup
nobody-AllRun b app e = absurd (ground (arith, e))

bank-AllRun : AllRun bank
bank-AllRun =
    insert-AllRun (codes "A") after (insert (codes "B") no_application nobody)
      (insert-AllRun (codes "B") no_application nobody nobody-AllRun begins) after-Run

abbrev branches : Dict Text Bool
branches = (codes "A", true) ∷ (codes "B", true) ∷ []

abbrev coord : Server
coord = record {
  branch = codes "A";
  can_commit = (t, 0) ∷ [];
  have_committed = (t, 0) ∷ [];
  related_branches = (t, branches) ∷ [];
  rpc_clients = branches;
}

known : lookup t coord.related_branches ≡ some branches
unfolding lookup text_beq
known = refl

fresh : lookup t coord.can_commit ≡ some 0
unfolding lookup text_beq
fresh = refl

apart : Unique branches
unfolding lookup text_beq
apart = (refl, (refl, tt))

-- `A` and `B` both say yes, `B` first.
votes : Permᴰ (prepare t no_application ∷ prepare t after ∷ []) (votes_of t bank branches)
unfolding votes_of lookup insert text_beq
votes = Permᴰ.swap refl refl

two_phase_commit-AllSettled_example :
    let yes_all = all_yes (votes_of t bank branches) in
    (srv1 : Server) × (actions : List Action) × (bank1 : Bank) × (two_phase_commit t
        (prepare t no_application ∷ prepare t after ∷ [])
        coord
      ≡ some (srv1, if yes_all then reply_commit_ok else reply_aborted, actions))
    × (carry_out actions bank ≡ some bank1)
    × AllSettled branches yes_all t bank bank1
two_phase_commit-AllSettled_example =
    two_phase_commit-AllSettled t (prepare t no_application ∷ prepare t after ∷ []) coord branches
      bank known fresh apart bank-AllRun votes

abbrev opened : Bank
opened = (codes "A", no_application) ∷ (codes "B", no_application) ∷ []

opened-begins : (b : Text) (app : Application) → lookup b opened ≡ some app → app ≡ no_application
unfolding lookup
opened-begins b app e = ground (arith, e)

abbrev worked : Bank
worked = (codes "A", after) ∷ (codes "B", no_application) ∷ []

abbrev said_a : Answers
said_a = (codes "A", (t, true) ∷ []) ∷ []

abbrev said_b : Answers
said_b = (codes "A", (t, true) ∷ []) ∷ (codes "B", (t, true) ∷ []) ∷ []

abbrev settled : Bank
settled = (codes "A", paid) ∷ (codes "B", no_application) ∷ []

-- `t` works at `A`, both branches say yes, and the coordinator decides.
decided :
    (calls : List Action) × Runs worked said_b (insert t true []) calls
    × (calls
        ≡ call_prepare (codes "A") t
          ∷ call_prepare (codes "B") t
          ∷ call_commit (codes "A") t true
          ∷ call_commit (codes "B") t true
          ∷ go_await_committed t
          ∷ [])
unfolding lookup insert erase text_beq prepare can_commit ◌+ℤ◌
decided =
    let r0 : Runs opened [] [] [] = Runs.begins opened opened-begins in
    let r1 : Runs worked [] [] [] =
      Runs.works opened [] [] [] (codes "A") t no_application after r0 refl refl put_t in
    let r2 : Runs worked said_a [] [] = Runs.votes worked [] [] [] (codes "A") t after r1 refl in
    let r3 : Runs worked said_b [] [] =
      Runs.votes worked said_a [] [] (codes "B") t no_application r2 refl in
    let (srv1, ran) =
      two_phase_commit-atomic t (true ∷ true ∷ []) coord branches known fresh refl in
    (
      _,
      Runs.decides worked said_b [] [] t coord srv1 branches (true ∷ true ∷ []) _ _ r3 refl known
          fresh apart (Permᴰ.swap refl refl) ran,
      refl,
    )

-- The call to `A` is carried out.
settled-Runs : (said : Answers) × (calls : List Action) × Runs settled said (insert t true []) calls
unfolding lookup insert erase text_beq commit release_locks release_all release_one add_changes ◌+ℤ◌
settled-Runs =
    let (calls, r, shape) = decided in
    (
      _,
      _,
      Runs.delivers worked settled said_b (insert t true [])
          (call_prepare (codes "A") t ∷ call_prepare (codes "B") t ∷ [])
          (call_commit (codes "B") t true ∷ go_await_committed t ∷ []) (codes "A") t true
          (subst (Runs worked said_b (insert t true [])) shape r) refl,
    )

settled-a : lookup (codes "A") settled ≡ some paid
unfolding lookup text_beq
settled-a = refl

Runs-solvent_example :
    ((a : Text) → pos 0 ≤ℤ balance_of paid.committed_data a)
    × ((tid : Text)
        → 0 < tally (codes "A") tid true settled-Runs.1
        → (prepare tid paid ≡ true) × ((b1 : Text) → tally b1 tid false settled-Runs.1 ≡ 0))
Runs-solvent_example = Runs-solvent (codes "A") paid settled-Runs.2 settled-a
