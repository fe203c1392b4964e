-- ===== src/Transactions/Bank/Runs/Delivered.antt =====
-- transactions-demo/server/rpc.go: a call of `Commit` is carried out at its branch.
use dist_sys_demos.Base.{
  ◌+◌, ◌<◌, ◌≡◌, refl, sym, ap, ◌∙◌, subst, Bool, true, false, ◌&&◌, some, List, ◌∷◌, ◌++◌, arith,
  if◌then◌else◌, Bool-cases, Option-cases, inl, inr,
}
use dist_sys_demos.Base.Dict.{Dict, lookup, insert, erase}
use dist_sys_demos.Base.Text.{Text, text_eq, text_beq, text_beq_iff}
use dist_sys_demos.Transactions.App.{Application}
use dist_sys_demos.Transactions.Participant.{commit}
use dist_sys_demos.Transactions.Participant.Isolation.Promises.{
  Promises, promised, Agreed, promised-erase,
}
use dist_sys_demos.Transactions.Coordinator.{Action, call_commit}
use dist_sys_demos.Transactions.Bank.{Bank, run_commit}
use dist_sys_demos.Transactions.Bank.Calls.{same, tally, tally-append, tally-cons}
use dist_sys_demos.Transactions.Bank.Runs.{Answers, answers_at}
use dist_sys_demos.Transactions.Bank.Runs.Kept.{
  InStep, replace-agreed, replace-banks, replace-answers, replaced, answers_self,
}

-- The calls before and after the one that is carried out are left.
tally-taken :
    (b t b1 tid : Text) (y z : Bool) (before after : List Action)
    → tally b t y (before ++ call_commit b1 tid z ∷ after)
      ≡ (if text_beq b1 b && (text_beq tid t && same y z) then 1 else 0)
        + tally b t y (before ++ after)
tally-taken b t b1 tid y z before after = omega (
  arith,
  tally-append b t y before (call_commit b1 tid z ∷ after),
  tally-cons b t b1 tid y z after,
  tally-append b t y before after,
)

-- What `Commit` does to the promises of its branch.
commit-Agreed :
    (b tid : Text) (z replied : Bool) (ps : Promises) (app app1 : Application)
    → Agreed b ps app
    → (z ≡ true → promised tid ps ≡ true)
    → commit z tid app ≡ some (app1, replied)
    → Agreed b (erase tid ps) app1
commit-Agreed b tid true replied ps app app1 r p e =
    Agreed.commits ps tid app app1 replied r (p refl) e
commit-Agreed b tid false replied ps app app1 r p e = Agreed.aborts ps tid app app1 replied r e

module _ (bank bank1 : Bank) (said : Answers) (asked : Dict Text Bool) (before after : List Action)
    (b tid : Text) (z : Bool) (v : InStep bank said asked (before ++ call_commit b tid z ∷ after))
    (e : run_commit b tid z bank ≡ some bank1) where
  abbrev said1 : Answers
  said1 = insert b (erase tid (answers_at said b)) said

  promised-taken : z ≡ true → promised tid (answers_at said b) ≡ true
  promised-taken yes_it = v.by_yes b tid (
      ground (
        arith,
        tally-taken b tid b tid true z before after,
        text_beq_iff b b,
        text_beq_iff tid tid,
        yes_it,
      ))

  delivers-agreed :
      (b1 : Text) (app : Application)
      → lookup b1 bank1 ≡ some app
      → Agreed b1 (answers_at said1 b1) app
  delivers-agreed = elim (Option-cases (lookup b bank)) [
    | inl away ↦
        let q : bank ≡ bank1 = ground (arith, away, e) in
        replace-agreed b bank bank1 said said1 v.agreed (λ b1 other. ap (lookup b1) (sym q))
          (λ b1 other. replace-answers b b1 (erase tid (answers_at said b)) said other)
          (λ app here. absurd (ground (arith, ap (lookup b) q, away, here)))
    | inr (app, known) ↦ elim (Option-cases (commit z tid app)) [
      | inl fatal ↦ absurd (ground (arith, known, fatal, e))
      | inr ((app1, replied), ran) ↦
          let q : insert b app1 bank ≡ bank1 = ground (arith, known, ran, e) in
          let ps1 = erase tid (answers_at said b) in
          replace-agreed b bank bank1 said said1 v.agreed
            (λ b1 other. ap (lookup b1) (sym q) ∙ replace-banks b b1 app1 bank other)
            (λ b1 other. replace-answers b b1 ps1 said other)
            (λ app2 here.
              subst (λ ps. Agreed b ps app2) (sym (answers_self b ps1 said))
                (subst (Agreed b ps1) (replaced b app1 app2 bank (ap (lookup b) q ∙ here)) (
                  commit-Agreed b tid z replied (answers_at said b) app app1 (v.agreed b app known)
                    promised-taken ran)))
    ]
  ]

  -- A promise that another call waits for is still there.
  delivers-by_yes :
      (b1 t : Text)
      → 0 < tally b1 t true (before ++ after)
      → promised t (answers_at said1 b1) ≡ true
  delivers-by_yes b1 t h =
      let old : promised t (answers_at said b1) ≡ true =
        v.by_yes b1 t (omega (arith, h, tally-taken b1 t b tid true z before after)) in
      let ps = answers_at said b in
      elim (Bool-cases (text_beq b b1)) [
        | inr other ↦ ap (promised t) (replace-answers b b1 (erase tid ps) said other) ∙ old
        | inl eq ↦
            let p : b ≡ b1 = (text_beq_iff b b1).0 eq in
            let apart : text_beq tid t ≡ false = ground (
              arith,
              eq,
              h,
              v.once b1 t,
              tally-taken b1 t b tid true z before after,
              tally-taken b1 t b tid false z before after,
            ) in
            subst (λ x. promised t (answers_at said1 x) ≡ true) p
              (ap (promised t) (answers_self b (erase tid ps) said)
                ∙ promised-erase tid t ps
                ∙ rw apart (subst (λ x. promised t (answers_at said x) ≡ true) (sym p) old))
      ]

  pub delivers-InStep : InStep bank1 said1 asked (before ++ after)
  delivers-InStep = record {
    agreed = delivers-agreed;
    once = λ b1 t. omega (
      arith,
      v.once b1 t,
      tally-taken b1 t b tid true z before after,
      tally-taken b1 t b tid false z before after,
    );
    new = λ b1 t y h. omega (arith, v.new b1 t y h, tally-taken b1 t b tid y z before after);
    alike = λ b1 b2 t h. omega (
      arith,
      h,
      v.alike b1 b2 t (omega (arith, h, tally-taken b1 t b tid true z before after)),
      tally-taken b2 t b tid false z before after,
    );
    by_yes = delivers-by_yes;
  }
