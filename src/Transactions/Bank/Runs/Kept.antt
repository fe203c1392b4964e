-- ===== src/Transactions/Bank/Runs/Kept.antt =====
-- transactions-demo/server/rpc.go: what the steps of the bank keep; commands and votes.
use mathlib.Core.Option.{some-injective}
use dist_sys_demos.Base.{
  ◌+◌, ◌≤◌, ◌<◌, ◌≡◌, refl, sym, ap, ◌∙◌, subst, Bool, true, false, none, some, List, if◌then◌else◌,
  Bool-cases, inl, inr,
}
use dist_sys_demos.Base.Dict.{Dict, lookup, insert, lookup-insert, lookup-insert_self}
use dist_sys_demos.Base.Text.{Text, text_eq, text_beq, text_beq_iff}
use dist_sys_demos.Transactions.App.{Application}
use dist_sys_demos.Transactions.App.Isolation.{or_empty-insert}
use dist_sys_demos.Transactions.Participant.{prepare}
use dist_sys_demos.Transactions.Participant.Isolation.Steps.{Work}
use dist_sys_demos.Transactions.Participant.Isolation.Promises.{
  Promises, promised, Agreed, Agreed-solvent, promised-insert,
}
use dist_sys_demos.Transactions.Coordinator.{Action}
use dist_sys_demos.Transactions.Bank.{Bank}
use dist_sys_demos.Transactions.Bank.Calls.{tally}
use dist_sys_demos.Transactions.Bank.Runs.{Answers, answers_at}

-- Every branch keeps its promises; a transaction is ended at most once at a branch, only when its
-- end has been asked for, in the same way at all of them, and it is committed there only with the
-- branch's yes.
pub record InStep (bank : Bank) (said : Answers) (asked : Dict Text Bool) (calls : List Action)
    : Type 0 where
  pub agreed :
      (b : Text) (app : Application) → lookup b bank ≡ some app → Agreed b (answers_at said b) app
  pub once : (b tid : Text) → tally b tid true calls + tally b tid false calls ≤ 1
  pub new : (b tid : Text) (y : Bool) → lookup tid asked ≡ none → tally b tid y calls ≡ 0
  pub by_yes : (b tid : Text) → 0 < tally b tid true calls → promised tid (answers_at said b) ≡ true
  pub alike : (b b1 tid : Text) → 0 < tally b tid true calls → tally b1 tid false calls ≡ 0

pub answers-insert :
    (b b1 : Text) (ps : Promises) (said : Answers)
    → answers_at (insert b ps said) b1 ≡ (if text_beq b b1 then ps else answers_at said b1)
answers-insert b b1 ps said = or_empty-insert b b1 ps said

-- Only one branch and its answers have changed.
pub replace-agreed :
    (b : Text) (bank bank1 : Bank) (said said1 : Answers)
    → ((b1 : Text) (app : Application)
        → lookup b1 bank ≡ some app
        → Agreed b1 (answers_at said b1) app)
    → ((b1 : Text) → text_beq b b1 ≡ false → lookup b1 bank1 ≡ lookup b1 bank)
    → ((b1 : Text) → text_beq b b1 ≡ false → answers_at said1 b1 ≡ answers_at said b1)
    → ((app : Application) → lookup b bank1 ≡ some app → Agreed b (answers_at said1 b) app)
    → (b1 : Text) (app : Application) → lookup b1 bank1 ≡ some app
    → Agreed b1 (answers_at said1 b1) app
replace-agreed b bank bank1 said said1 h banks answers here b1 app e =
    elim (Bool-cases (text_beq b b1)) [
      | inl eq ↦
          let p : b ≡ b1 = (text_beq_iff b b1).0 eq in
          subst (λ x. Agreed x (answers_at said1 x) app) p
            (here app (ap (λ x. lookup x bank1) p ∙ e))
      | inr other ↦
          subst (λ ps. Agreed b1 ps app) (sym (answers b1 other))
            (h b1 app (sym (banks b1 other) ∙ e))
    ]

pub replace-banks :
    (b b1 : Text) (app : Application) (bank : Bank)
    → text_beq b b1 ≡ false
    → lookup b1 (insert b app bank) ≡ lookup b1 bank
replace-banks b b1 app bank other = lookup-insert b b1 app bank ∙ rw other

pub replace-answers :
    (b b1 : Text) (ps : Promises) (said : Answers)
    → text_beq b b1 ≡ false
    → answers_at (insert b ps said) b1 ≡ answers_at said b1
replace-answers b b1 ps said other = answers-insert b b1 ps said ∙ rw other

pub replaced :
    (b : Text) (app app1 : Application) (bank : Bank)
    → lookup b (insert b app bank) ≡ some app1
    → app ≡ app1
replaced b app app1 bank e = some-injective app app1 (sym (lookup-insert_self b app bank) ∙ e)

pub answers_self :
    (b : Text) (ps : Promises) (said : Answers) → answers_at (insert b ps said) b ≡ ps
answers_self b ps said = answers-insert b b ps said ∙ rw ((text_beq_iff b b).1 refl)

pub works-InStep :
    (bank : Bank) (said : Answers) (asked : Dict Text Bool) (calls : List Action) (b tid : Text)
    (app app1 : Application)
    → InStep bank said asked calls
    → lookup b bank ≡ some app
    → promised tid (answers_at said b) ≡ false
    → Work b tid app app1
    → InStep (insert b app1 bank) said asked calls
works-InStep bank said asked calls b tid app app1 v known free w = record {
  agreed =
      replace-agreed b bank (insert b app1 bank) said said v.agreed
        (λ b1 other. replace-banks b b1 app1 bank other) (λ b1 other. refl)
        (λ app2 e.
          subst (λ x. Agreed b (answers_at said b) x) (replaced b app1 app2 bank e)
            (Agreed.works (answers_at said b) tid app app1 (v.agreed b app known) free w));
  once = v.once;
  new = v.new;
  alike = v.alike;
  by_yes = v.by_yes;
}

pub votes-InStep :
    (bank : Bank) (said : Answers) (asked : Dict Text Bool) (calls : List Action) (b tid : Text)
    (app : Application)
    → InStep bank said asked calls
    → lookup b bank ≡ some app
    → InStep bank (insert b (insert tid (prepare tid app) (answers_at said b)) said) asked calls
votes-InStep bank said asked calls b tid app v known =
    let ps = answers_at said b in
    let ps1 = insert tid (prepare tid app) ps in
    record {
      agreed =
          replace-agreed b bank bank said (insert b ps1 said) v.agreed (λ b1 other. refl)
            (λ b1 other. replace-answers b b1 ps1 said other)
            (λ app1 e.
              subst (λ x. Agreed b x app1) (sym (answers_self b ps1 said))
                (subst (Agreed b ps1) (some-injective app app1 (sym known ∙ e))
                  (Agreed.votes ps tid app (v.agreed b app known))));
      once = v.once;
      new = v.new;
      alike = v.alike;
      by_yes = λ b1 t h.
          let before = v.by_yes b1 t h in
          elim (Bool-cases (text_beq b b1)) [
            | inr other ↦ ap (promised t) (replace-answers b b1 ps1 said other) ∙ before
            | inl eq ↦
                let p : b ≡ b1 = (text_beq_iff b b1).0 eq in
                subst (λ x. promised t (answers_at (insert b ps1 said) x) ≡ true) p
                  (ap (promised t) (answers_self b ps1 said)
                    ∙ promised-insert tid t (prepare tid app) ps
                    ∙ said_again t
                        (subst (λ x. promised t (answers_at said x) ≡ true) (sym p) before))
          ];
    }
  where
    said_again :
        (t : Text)
        → promised t (answers_at said b) ≡ true
        → (if text_beq tid t then prepare tid app else promised t (answers_at said b)) ≡ true
    said_again t before = elim (Bool-cases (text_beq tid t)) [
      | inr other ↦ rw other before
      | inl eq ↦
          let p : tid ≡ t = (text_beq_iff tid t).0 eq in
          rw eq (ap (λ x. prepare x app) p ∙ (Agreed-solvent (v.agreed b app known)).1 t before)
    ]
