-- ===== src/Transactions/Bank/Round.antt =====
-- transactions-demo/server/rpc.go: a round of two-phase commit, at the coordinator and at all
-- branches.
use mathlib.Core.List.{Permᴰ}
use mathlib.Core.Option.{some-injective}
use dist_sys_demos.Base.{
  ◌≡◌, refl, sym, ap, ◌∙◌, subst, suc, Bool, true, false, ◌&&◌, none, some, List, [], ◌∷◌, ◌++◌,
  length, arith, if◌then◌else◌, Bool-cases, Option-cases, inl, inr,
}
use dist_sys_demos.Base.Dict.{Dict, Unique, lookup, insert, lookup-insert, lookup-cons, lookup-nil}
use dist_sys_demos.Base.Text.{Text, text_eq, text_beq, text_beq_iff}
use dist_sys_demos.Base.Int.{◌+ℤ◌}
use dist_sys_demos.Transactions.App.{Application, cache_of, is_some}
use dist_sys_demos.Transactions.Participant.{commit}
use dist_sys_demos.Transactions.Participant.Solvency.{balance_of, commit-accounts}
use dist_sys_demos.Transactions.Participant.Runs.{commit-IsLocked}
use dist_sys_demos.Transactions.Participant.Isolation.Steps.{Run, steps, ends, Run-IsSound}
use dist_sys_demos.Transactions.Coordinator.{
  Server, Action, call_prepare, call_commit, go_await_committed, go_forget, call_all,
  two_phase_commit, reply_commit_ok, reply_aborted,
}
use dist_sys_demos.Transactions.Coordinator.Decision.{all_yes, two_phase_commit-atomic}
use dist_sys_demos.Transactions.Bank.{Bank, votes_of, carry_out}

-- What a round does at a branch that takes part, and at one that does not.
abbrev pub Settled : Bool → Bool → Text → Application → Application → Type 0
Settled true do_commit tid app app1 =
    ((a : Text)
      → balance_of app1.committed_data a ≡ (
          if do_commit
          then balance_of app.committed_data a +ℤ balance_of (cache_of app tid) a
          else balance_of app.committed_data a))
    × (lookup tid app1.cache ≡ none)
Settled false do_commit tid app app1 = app1 ≡ app

abbrev pub AllRun : Bank → Type 0
AllRun bank = (b : Text) (app : Application) → lookup b bank ≡ some app → Run b app

-- Every branch is as the round leaves it.
abbrev pub AllSettled : Dict Text Bool → Bool → Text → Bank → Bank → Type 0
AllSettled branches do_commit tid bank bank1 =
    (b : Text) (app : Application)
    → lookup b bank ≡ some app
    → (app1 : Application) × (lookup b bank1 ≡ some app1)
      × Run b app1
      × Settled (is_some (lookup b branches)) do_commit tid app app1

settle_one :
    (do_commit : Bool) (b tid : Text) (app : Application)
    → Run b app
    → (app1 : Application) × (commit do_commit tid app ≡ some (app1, false))
      × Run b app1
      × Settled true do_commit tid app app1
settle_one do_commit b tid app r =
    let v = Run-IsSound r in
    let (app1, e, w) = commit-IsLocked do_commit tid app v.locked in
    let (money, dropped, unset) = commit-accounts do_commit tid app app1 false (v.unique tid) e in
    (app1, e, steps tid app app1 r (ends do_commit tid app app1 false e), (money, dropped))

carry_out-prepares :
    (tid : Text) (branches : Dict Text Bool) (actions : List Action) (bank : Bank)
    → carry_out (call_all (λ b. call_prepare b tid) branches ++ actions) bank
      ≡ carry_out actions bank
unfolding carry_out
carry_out-prepares tid [] actions bank = refl
carry_out-prepares tid ((b, x) ∷ branches) actions bank =
    carry_out-prepares tid branches actions bank

pub insert-AllRun :
    (b : Text) (app : Application) (bank : Bank)
    → AllRun bank
    → Run b app
    → AllRun (insert b app bank)
insert-AllRun b app bank all r b1 app1 e = elim (Bool-cases (text_beq b b1)) [
  | inl same ↦
      subst (λ x. Run x app1) ((text_beq_iff b b1).0 same)
        (subst (Run b) (some-injective app app1 (sym (lookup-insert b b1 app bank ∙ rw same) ∙ e))
          r)
  | inr other ↦ all b1 app1 (sym (lookup-insert b b1 app bank ∙ rw other) ∙ e)
]

carry_out-commits :
    (do_commit : Bool) (tid : Text) (branches : Dict Text Bool) (actions : List Action)
    (bank : Bank)
    → ((bank1 : Bank) → carry_out actions bank1 ≡ some bank1)
    → Unique branches
    → AllRun bank
    → (bank1 : Bank) × (carry_out
          (call_all (λ b. call_commit b tid do_commit) branches ++ actions)
          bank
        ≡ some bank1)
      × AllSettled branches do_commit tid bank bank1
unfolding carry_out
carry_out-commits do_commit tid [] actions bank rest u all =
    (bank, rest bank, λ b app e. (app, e, all b app e, rw (lookup-nil {V = Bool} b) refl))
carry_out-commits do_commit tid ((b, x) ∷ branches) actions bank rest u all =
    elim (Option-cases (lookup b bank)) [
      | inl away ↦
          let (bank1, e, settled) =
            carry_out-commits do_commit tid branches actions bank rest u.1 all in
          (
            bank1,
            rw (away, carry_out) e,
            λ b1 app1 h.
                let other : text_beq b b1 ≡ false = ground (arith, text_beq_iff b b1, away, h) in
                subst
                  (λ m.
                    (app2 : Application) × (lookup b1 bank1 ≡ some app2)
                    × Run b1 app2
                    × Settled (is_some m) do_commit tid app1 app2)
                  (sym (lookup-cons b1 b x branches ∙ rw other)) (settled b1 app1 h),
          )
      | inr (app, known) ↦
          let (app1, ran, r1, done1) = settle_one do_commit b tid app (all b app known) in
          let bank0 = insert b app1 bank in
          let (bank1, e, settled) =
            carry_out-commits do_commit tid branches actions bank0 rest u.1
              (insert-AllRun b app1 bank all r1) in
          (
            bank1,
            rw (known, ran, carry_out) e,
            λ b2 app2 h. elim (Bool-cases (text_beq b b2)) [
              | inr other ↦
                  subst
                    (λ m.
                      (app3 : Application) × (lookup b2 bank1 ≡ some app3)
                      × Run b2 app3
                      × Settled (is_some m) do_commit tid app2 app3)
                    (sym (lookup-cons b2 b x branches ∙ rw other))
                    (settled b2 app2 (lookup-insert b b2 app1 bank ∙ rw other h))
              | inl same ↦
                  let p : b ≡ b2 = (text_beq_iff b b2).0 same in
                  let q : app ≡ app2 =
                    some-injective app app2 (sym known ∙ ap (λ k. lookup k bank) p ∙ h) in
                  let (app3, e3, r3, left) =
                    settled b2 app1 (lookup-insert b b2 app1 bank ∙ rw same) in
                  let listed : lookup b2 ((b, x) ∷ branches) ≡ some x =
                    lookup-cons b2 b x branches ∙ rw same refl in
                  let gone : lookup b2 branches ≡ none =
                    ap (λ k. lookup k branches) (sym p) ∙ u.0 in
                  let same_app : app3 ≡ app1 =
                    subst (λ m. Settled (is_some m) do_commit tid app1 app3) gone left in
                  (
                    app3,
                    e3,
                    r3,
                    subst (λ m. Settled (is_some m) do_commit tid app2 app3) (sym listed)
                        (subst (λ a. Settled true do_commit tid a app3) q
                          (subst (Settled true do_commit tid app) (sym same_app) done1)),
                  )
            ],
          )
    ]

length-votes_of :
    (tid : Text) (bank : Bank) (branches : Dict Text Bool)
    → length (votes_of tid bank branches) ≡ length branches
unfolding votes_of
length-votes_of tid bank [] = refl
length-votes_of tid bank ((b, x) ∷ branches) = ap suc (length-votes_of tid bank branches)

and_swap : (a b c : Bool) → (a && (b && c)) ≡ (b && (a && c))
and_swap true true c = refl
and_swap true false c = refl
and_swap false true c = refl
and_swap false false c = refl

-- The order of the votes does not matter.
pub reordered :
    {votes votes1 : List Bool}
    → Permᴰ votes votes1
    → (all_yes votes ≡ all_yes votes1) × (length votes ≡ length votes1)
reordered Permᴰ.nil = (refl, refl)
reordered (Permᴰ.cons e d) = let (p, q) = reordered d in (rw (e, p) refl, ap suc q)
reordered (Permᴰ.swap {a} {b} {l = l} e e1) = (rw (sym e, sym e1) (and_swap a b (all_yes l)), refl)
reordered (Permᴰ.trans d d1) =
    let (p, q) = reordered d in let (p1, q1) = reordered d1 in (p ∙ p1, q ∙ q1)

last_idle :
    (tid : Text) (yes_all : Bool) (bank : Bank)
    → carry_out ((if yes_all then go_await_committed tid else go_forget tid) ∷ []) bank ≡ some bank
unfolding carry_out
last_idle tid true bank = refl
last_idle tid false bank = refl

-- A round of two-phase commit of a transaction that has counted no answer yet, with the votes of its
-- branches in any order, where every branch is in a state of its runs. The coordinator replies
-- COMMIT OK if every branch votes yes, and ABORTED if one does not. Once its calls are carried out,
-- at every branch that takes part the committed balances have been changed by exactly the changes
-- of the transaction in the first case and by nothing in the second, and the transaction's changes
-- are gone; the other branches are as they were. No call ends a branch's process.
pub two_phase_commit-AllSettled :
    (tid : Text) (votes : List Bool) (srv : Server) (branches : Dict Text Bool) (bank : Bank)
    → lookup tid srv.related_branches ≡ some branches
    → lookup tid srv.can_commit ≡ some 0
    → Unique branches
    → AllRun bank
    → Permᴰ votes (votes_of tid bank branches)
    → let yes_all = all_yes (votes_of tid bank branches) in
      (srv1 : Server) × (actions : List Action) × (bank1 : Bank) × (two_phase_commit tid votes srv
        ≡ some (srv1, if yes_all then reply_commit_ok else reply_aborted, actions))
      × (carry_out actions bank ≡ some bank1)
      × AllSettled branches yes_all tid bank bank1
two_phase_commit-AllSettled tid votes srv branches bank known fresh u all d =
    let (same, count) = reordered d in
    let yes_all = all_yes (votes_of tid bank branches) in
    let last = if yes_all then go_await_committed tid else go_forget tid in
    let commits = call_all (λ b. call_commit b tid yes_all) branches ++ (last ∷ []) in
    let (srv1, ran) =
      two_phase_commit-atomic tid votes srv branches known fresh
        (count ∙ length-votes_of tid bank branches) in
    let (bank1, carried, settled) =
      carry_out-commits yes_all tid branches (last ∷ []) bank (last_idle tid yes_all) u all in
    (
      srv1,
      call_all (λ b. call_prepare b tid) branches ++ commits,
      bank1,
      subst
          (λ y.
            two_phase_commit tid votes srv
            ≡ some (
              srv1,
              if y then reply_commit_ok else reply_aborted,
              call_all (λ b. call_prepare b tid) branches
                  ++ (call_all (λ b. call_commit b tid y) branches
                      ++ ((if y then go_await_committed tid else go_forget tid) ∷ [])),
            ))
          same ran,
      carry_out-prepares tid branches commits bank ∙ carried,
      settled,
    )
