-- ===== src/Transactions/Bank/Runs/Asked.antt =====
-- transactions-demo/server/rpc.go: the end of a transaction is asked for.
use mathlib.Core.List.{Permᴰ}
use mathlib.Core.Option.{some-injective}
use dist_sys_demos.Base.{
  suc, ◌<◌, ◌≡◌, refl, sym, ap, ◌∙◌, subst, Bool, true, false, ◌&&◌, none, some, List, [], ◌∷◌,
  ◌++◌, length, arith, if◌then◌else◌, Bool-cases, inl, inr,
}
use dist_sys_demos.Base.Dict.{Dict, Unique, lookup, insert, lookup-insert, lookup-cons, lookup-nil}
use dist_sys_demos.Base.Text.{Text, text_eq, text_beq, text_beq_iff}
use dist_sys_demos.Transactions.App.{is_some}
use dist_sys_demos.Transactions.Participant.Isolation.Promises.{promised}
use dist_sys_demos.Transactions.Coordinator.{Server, Action, do_abort, two_phase_commit}
use dist_sys_demos.Transactions.Coordinator.Decision.{
  all_yes, two_phase_commit-atomic, do_abort-calls,
}
use dist_sys_demos.Transactions.Bank.{Bank}
use dist_sys_demos.Transactions.Bank.Round.{reordered}
use dist_sys_demos.Transactions.Bank.Calls.{same, tally, tally-append, tally-round, tally-abort}
use dist_sys_demos.Transactions.Bank.Runs.{Answers, answers_at, votes_said}
use dist_sys_demos.Transactions.Bank.Runs.Kept.{InStep}

-- The calls of a round are added.
adds-InStep :
    (bank : Bank) (said : Answers) (asked : Dict Text Bool) (calls actions : List Action)
    (tid : Text) (z : Bool) (branches : Dict Text Bool)
    → InStep bank said asked calls
    → lookup tid asked ≡ none
    → ((b t : Text) (y : Bool)
        → tally b t y actions
          ≡ (if text_beq tid t && (same y z && is_some (lookup b branches)) then 1 else 0))
    → (z ≡ true
        → (b : Text) → is_some (lookup b branches) ≡ true
        → promised tid (answers_at said b) ≡ true)
    → InStep bank said (insert tid true asked) (calls ++ actions)
adds-InStep bank said asked calls actions tid z branches v unasked counts agreed = record {
  agreed = v.agreed;
  once = λ b t. ground (
    arith,
    tally-append b t true calls actions,
    tally-append b t false calls actions,
    counts b t true,
    counts b t false,
    v.once b t,
    v.new b tid true unasked,
    v.new b tid false unasked,
    text_beq_iff tid t,
  );
  new = λ b t y h.
      let other : text_beq tid t ≡ false = ground (arith, lookup-insert tid t true asked, h) in
      let before : lookup t asked ≡ none = ground (arith, lookup-insert tid t true asked, h) in
      ground (arith, tally-append b t y calls actions, counts b t y, other, v.new b t y before);
  alike = λ b b1 t h. elim (Bool-cases (text_beq tid t)) [
    | inr other ↦ ground (
      arith,
      tally-append b t true calls actions,
      counts b t true,
      tally-append b1 t false calls actions,
      counts b1 t false,
      other,
      h,
      v.alike b b1 t,
    )
    | inl eq ↦
        let p : tid ≡ t = (text_beq_iff tid t).0 eq in
        subst (λ x. tally b1 x false (calls ++ actions) ≡ 0) p
          (ground (
            arith,
            tally-append b tid true calls actions,
            counts b tid true,
            v.new b tid true unasked,
            tally-append b1 tid false calls actions,
            counts b1 tid false,
            v.new b1 tid false unasked,
            subst (λ x. 0 < tally b x true (calls ++ actions)) (sym p) h,
          ))
  ];
  by_yes = λ b t h. elim (Bool-cases (text_beq tid t)) [
    | inr other ↦
        v.by_yes b t
          (ground (arith, tally-append b t true calls actions, counts b t true, other, h))
    | inl eq ↦
        let p : tid ≡ t = (text_beq_iff tid t).0 eq in
        let h1 : 0 < tally b tid true (calls ++ actions) =
          subst (λ x. 0 < tally b x true (calls ++ actions)) (sym p) h in
        let both : (z ≡ true) × (is_some (lookup b branches) ≡ true) = ground (
          arith,
          tally-append b tid true calls actions,
          counts b tid true,
          v.new b tid true unasked,
          h1,
        ) in
        subst (λ x. promised x (answers_at said b) ≡ true) p (agreed both.0 b both.1)
  ];
}

length-votes_said :
    (tid : Text) (said : Answers) (branches : Dict Text Bool)
    → length (votes_said tid said branches) ≡ length branches
length-votes_said tid said [] = refl
length-votes_said tid said ((b, x) ∷ branches) = ap suc (length-votes_said tid said branches)

-- A branch that takes part has said yes, if all have.
all_yes-promised :
    (tid b : Text) (said : Answers) (branches : Dict Text Bool)
    → all_yes (votes_said tid said branches) ≡ true
    → is_some (lookup b branches) ≡ true
    → promised tid (answers_at said b) ≡ true
all_yes-promised tid b said [] h listed = absurd (ground (arith, lookup-nil {V = Bool} b, listed))
all_yes-promised tid b said ((b1, x) ∷ branches) h listed = elim (Bool-cases (text_beq b1 b)) [
  | inl eq ↦
      subst (λ k. promised tid (answers_at said k) ≡ true) ((text_beq_iff b1 b).0 eq) (ground arith)
  | inr other ↦
      all_yes-promised tid b said branches (ground arith)
        (ground (arith, lookup-cons b b1 x branches, other, listed))
]

pub decides-InStep :
    (bank : Bank) (said : Answers) (asked : Dict Text Bool) (calls : List Action) (tid : Text)
    (srv srv1 : Server) (branches : Dict Text Bool) (answers : List Bool) (reply : Text)
    (actions : List Action)
    → InStep bank said asked calls
    → lookup tid asked ≡ none
    → lookup tid srv.related_branches ≡ some branches
    → lookup tid srv.can_commit ≡ some 0
    → Unique branches
    → Permᴰ answers (votes_said tid said branches)
    → two_phase_commit tid answers srv ≡ some (srv1, reply, actions)
    → InStep bank said (insert tid true asked) (calls ++ actions)
decides-InStep bank said asked calls tid srv srv1 branches answers reply actions v unasked known
      fresh u d e =
    let (agree, count) = reordered d in
    let z = all_yes answers in
    let (srv2, ran) =
      two_phase_commit-atomic tid answers srv branches known fresh
        (count ∙ length-votes_said tid said branches) in
    let q = ap (λ (x : Server × Text × List Action). x.2) (some-injective _ _ (sym ran ∙ e)) in
    adds-InStep bank said asked calls actions tid z branches v unasked
      (λ b t y. ap (tally b t y) (sym q) ∙ tally-round b t tid y z branches u)
      (λ yes_all b listed. all_yes-promised tid b said branches (sym agree ∙ yes_all) listed)

pub gives_up-InStep :
    (bank : Bank) (said : Answers) (asked : Dict Text Bool) (calls : List Action) (tid : Text)
    (srv : Server) (branches : Dict Text Bool)
    → InStep bank said asked calls
    → lookup tid asked ≡ none
    → lookup tid srv.related_branches ≡ some branches
    → Unique branches
    → InStep bank said (insert tid true asked) (calls ++ (do_abort tid srv).1)
gives_up-InStep bank said asked calls tid srv branches v unasked known u =
    adds-InStep bank said asked calls (do_abort tid srv).1 tid false branches v unasked
      (λ b t y.
        ap (tally b t y) (do_abort-calls tid srv branches known) ∙ tally-abort b t tid y branches u)
      (λ h b listed. absurd (ground arith))
