-- ===== src/Transactions/Coordinator/Decision.antt =====
-- transactions-demo/server/rpc.go: what `TwoPhaseCommit` decides, and what it tells the branches.
use dist_sys_demos.Base.{
  ℕ, suc, ◌+◌, ◌≡◌, refl, Bool, true, false, ◌&&◌, some, List, [], ◌∷◌, ◌++◌, length, arith,
  if◌then◌else◌, ◌==◌, Bool-cases, inl, inr,
}
use dist_sys_demos.Base.Dict.{Dict, lookup, insert}
use dist_sys_demos.Base.Text.{Text, text_eq}
use dist_sys_demos.Transactions.Coordinator.{
  Server, call_prepare, call_commit, go_forget, go_await_committed, reply_commit_ok, reply_aborted,
  call_all, do_abort, collect_votes, two_phase_commit,
}

abbrev pub all_yes : List Bool → Bool
all_yes [] = true
all_yes (v ∷ vs) = v && all_yes vs

-- With an answer from every branch the loop ends, and has counted all of them exactly if every
-- answer was yes.
collect_votes_lem :
    (votes : List Bool) (count need : ℕ)
    → need ≡ count + length votes
    → (n : ℕ) × (collect_votes need count votes ≡ some n) × ((n == need) ≡ all_yes votes)
unfolding collect_votes
collect_votes_lem [] count need h = (count, ground arith, ground arith)
collect_votes_lem (true ∷ votes) count need h =
    let (n, e, p) = collect_votes_lem votes (suc count) need (omega arith) in
    (n, ground (arith, e), p)
collect_votes_lem (false ∷ votes) count need h = (count, ground arith, ground arith)

-- With one answer to PREPARE from each branch of a transaction that has counted none yet, every
-- branch is told the same: to commit, with the
-- reply COMMIT OK, if all answers were yes, and to abort, with the reply ABORTED, if not.
pub two_phase_commit-atomic :
    (tid : Text) (votes : List Bool) (srv : Server) (branches : Dict Text Bool)
    → lookup tid srv.related_branches ≡ some branches
    → lookup tid srv.can_commit ≡ some 0
    → length votes ≡ length branches
    → let yes_all = all_yes votes in
      (srv1 : Server) × (two_phase_commit tid votes srv
        ≡ some (
          srv1,
          if yes_all then reply_commit_ok else reply_aborted,
          call_all (λ b. call_prepare b tid) branches
              ++ (call_all (λ b. call_commit b tid yes_all) branches
                  ++ ((if yes_all then go_await_committed tid else go_forget tid) ∷ [])),
        ))
unfolding two_phase_commit do_abort
two_phase_commit-atomic tid votes srv branches known fresh answers =
    go (collect_votes_lem votes 0 (length branches) (omega arith))
  where
    go :
        (n : ℕ) × (collect_votes (length branches) 0 votes ≡ some n)
          × ((n == length branches) ≡ all_yes votes)
        → let yes_all = all_yes votes in
          (srv1 : Server) × (two_phase_commit tid votes srv
            ≡ some (
              srv1,
              if yes_all then reply_commit_ok else reply_aborted,
              call_all (λ b. call_prepare b tid) branches
                  ++ (call_all (λ b. call_commit b tid yes_all) branches
                      ++ ((if yes_all then go_await_committed tid else go_forget tid) ∷ [])),
            ))
    go (n, e, p) = (
      record srv { can_commit = insert tid n srv.can_commit },
      elim (Bool-cases (all_yes votes)) [
        | inl every ↦ rw (known, fresh, e, p, every, two_phase_commit)
        | inr some_no ↦ rw (known, fresh, e, p, some_no, two_phase_commit) (rw (known, do_abort))
      ],
    )

-- The calls of an abort.
pub do_abort-calls :
    (tid : Text) (srv : Server) (branches : Dict Text Bool)
    → lookup tid srv.related_branches ≡ some branches
    → (do_abort tid srv).1
      ≡ call_all (λ b. call_commit b tid false) branches ++ (go_forget tid ∷ [])
unfolding do_abort
do_abort-calls tid srv branches known = rw known refl
