-- ===== src/Transactions/Bank/Calls.antt =====
-- transactions-demo/server/rpc.go: the calls of `Commit` among those that a coordinator makes.
use dist_sys_demos.Base.{
  ℕ, suc, ◌+◌, ◌≡◌, refl, sym, ap, ◌∙◌, Bool, true, false, ◌&&◌, not, none, List, [], ◌∷◌, ◌++◌,
  arith, if◌then◌else◌, Bool-cases, inl, inr,
}
use dist_sys_demos.Base.Dict.{Dict, Unique, lookup, lookup-cons, lookup-nil}
use dist_sys_demos.Base.Text.{Text, text_eq, text_beq, text_beq_iff}
use dist_sys_demos.Transactions.App.{is_some}
use dist_sys_demos.Transactions.Coordinator.{
  Action, dial, call_prepare, call_commit, call_forward, go_forget, go_await_committed, call_all,
}

abbrev pub same : Bool → Bool → Bool
same true b = b
same false b = not b

-- How many calls of `Commit` go to the branch for the transaction, with the given decision.
unfoldable pub tally : Text → Text → Bool → List Action → ℕ
tally b tid y [] = 0
tally b tid y (call_commit b1 tid1 y1 ∷ calls) =
    let n = tally b tid y calls in
    if text_beq b1 b && (text_beq tid1 tid && same y y1) then suc n else n
tally b tid y (_ ∷ calls) = tally b tid y calls

pub tally-append :
    (b tid : Text) (y : Bool) (calls more : List Action)
    → tally b tid y (calls ++ more) ≡ tally b tid y calls + tally b tid y more
unfolding tally
tally-append b tid y [] more = omega arith
tally-append b tid y (dial b1 ∷ calls) more = tally-append b tid y calls more
tally-append b tid y (call_prepare b1 tid1 ∷ calls) more = tally-append b tid y calls more
tally-append b tid y (call_forward cmd ∷ calls) more = tally-append b tid y calls more
tally-append b tid y (go_forget tid1 ∷ calls) more = tally-append b tid y calls more
tally-append b tid y (go_await_committed tid1 ∷ calls) more = tally-append b tid y calls more
tally-append b tid y (call_commit b1 tid1 y1 ∷ calls) more =
    ground (arith, tally-append b tid y calls more)

tally-prepares :
    (b tid tid1 : Text) (y : Bool) (branches : Dict Text Bool)
    → tally b tid y (call_all (λ b1. call_prepare b1 tid1) branches) ≡ 0
unfolding tally
tally-prepares b tid tid1 y [] = refl
tally-prepares b tid tid1 y ((b1, x) ∷ branches) = tally-prepares b tid tid1 y branches

tally-commits :
    (b tid tid1 : Text) (y y1 : Bool) (branches : Dict Text Bool)
    → Unique branches
    → tally b tid y (call_all (λ b1. call_commit b1 tid1 y1) branches)
      ≡ (if text_beq tid1 tid && (same y y1 && is_some (lookup b branches)) then 1 else 0)
unfolding tally
tally-commits b tid tid1 y y1 [] u = rw (lookup-nil {V = Bool} b) (ground arith)
tally-commits b tid tid1 y y1 ((b1, x) ∷ branches) u =
    let ih = tally-commits b tid tid1 y y1 branches u.1 in
    elim (Bool-cases (text_beq b1 b)) [
      | inl here ↦
          let gone : lookup b branches ≡ none =
            ap (λ k. lookup k branches) (sym ((text_beq_iff b1 b).0 here)) ∙ u.0 in
          rw (ih, lookup-cons b b1 x branches, here, gone) (ground arith)
      | inr other ↦ rw (ih, lookup-cons b b1 x branches, other) (ground arith)
    ]

tally-last :
    (b tid tid1 : Text) (y y1 : Bool)
    → tally b tid y ((if y1 then go_await_committed tid1 else go_forget tid1) ∷ []) ≡ 0
unfolding tally
tally-last b tid tid1 y true = refl
tally-last b tid tid1 y false = refl

-- The calls of a round: one for each branch, all with the same decision.
pub tally-round :
    (b tid tid1 : Text) (y y1 : Bool) (branches : Dict Text Bool)
    → Unique branches
    → tally b tid y (
        call_all (λ b1. call_prepare b1 tid1) branches
        ++ (call_all (λ b1. call_commit b1 tid1 y1) branches
            ++ ((if y1 then go_await_committed tid1 else go_forget tid1) ∷ [])))
      ≡ (if text_beq tid1 tid && (same y y1 && is_some (lookup b branches)) then 1 else 0)
tally-round b tid tid1 y y1 branches u =
    let commits = call_all (λ b1. call_commit b1 tid1 y1) branches in
    let last = (if y1 then go_await_committed tid1 else go_forget tid1) ∷ [] in
    omega (
      arith,
      tally-append b tid y (call_all (λ b1. call_prepare b1 tid1) branches) (commits ++ last),
      tally-prepares b tid tid1 y branches,
      tally-append b tid y commits last,
      tally-commits b tid tid1 y y1 branches u,
      tally-last b tid tid1 y y1,
    )

pub tally-abort :
    (b tid tid1 : Text) (y : Bool) (branches : Dict Text Bool)
    → Unique branches
    → tally b tid y (call_all (λ b1. call_commit b1 tid1 false) branches ++ (go_forget tid1 ∷ []))
      ≡ (if text_beq tid1 tid && (same y false && is_some (lookup b branches)) then 1 else 0)
tally-abort b tid tid1 y branches u = omega (
  arith,
  tally-append b tid y (call_all (λ b1. call_commit b1 tid1 false) branches) (go_forget tid1 ∷ []),
  tally-commits b tid tid1 y false branches u,
  tally-last b tid tid1 y false,
)

pub tally-cons :
    (b tid b1 tid1 : Text) (y y1 : Bool) (calls : List Action)
    → tally b tid y (call_commit b1 tid1 y1 ∷ calls)
      ≡ (if text_beq b1 b && (text_beq tid1 tid && same y y1) then 1 else 0) + tally b tid y calls
unfolding tally
tally-cons b tid b1 tid1 y y1 calls = ground arith

pub tally-nil : (b tid : Text) (y : Bool) → tally b tid y [] ≡ 0
unfolding tally
tally-nil b tid y = refl
