-- ===== src/Raft/Election.antt =====
-- raft-demo/src/raft: leader election. `RequestVote` (rpc.go) and the election's loops (raft.go),
-- one function for each critical section.
pub mod Votes
pub mod Elected
use dist_sys_demos.Base.{
  ℕ, ◌+◌, ◌-◌, Bool, true, false, ◌&&◌, Option, none, some, List, [], ◌∷◌, ◌++◌, length, ltb, ◌==◌,
  if◌then◌else◌, leb, ◌||◌, ◌/◌, zero, suc,
}
use dist_sys_demos.Raft.State.{
  LogEntry, follower, candidate, leader, Raft, RequestVoteArgs, Effect, rpc_ch, go_to_follower,
  go_to_candidate, go_to_leader, send_request_vote, is_follower, last_entry, RequestVoteReply,
}

-- `rf.votedFor == -1 || rf.votedFor == args.CandidateId`
abbrev pub can_vote_for : Option ℕ → ℕ → Bool
can_vote_for none c = true
can_vote_for (some v) c = v == c

module _ {ℓ} {C : Type ℓ} where
  unfoldable pub is_elected : Raft C → Bool
  is_elected rf = ltb (rf.num_peers / 2) rf.votes_got

  -- The candidate's last term against the peer's, then its last index.
  unfoldable pub is_cand_up_to_date : Raft C → RequestVoteArgs → Bool
  is_cand_up_to_date rf args = elim (last_entry rf.log) [
    | none ↦ true
    | some x ↦
        ltb x.term args.last_log_term
        || (args.last_log_term == x.term && leb (length rf.log - 1) args.last_log_index)
  ]

  -- A call that carries a larger term: the term is taken over, and any other state becomes
  -- FOLLOWER.
  unfoldable pub adopt_term : Raft C → ℕ → Raft C × List (Effect C)
  adopt_term rf term =
      if ltb rf.current_term term
      then (
        record rf { current_term = term; state = follower },
        if is_follower rf.state then [] else go_to_follower ∷ [],
      )
      else (rf, [])

  -- The vote, once the term has been settled.
  unfoldable pub cast_vote : Raft C → RequestVoteArgs → Raft C × Bool
  cast_vote rf args =
      if can_vote_for rf.voted_for args.candidate_id && is_cand_up_to_date rf args
      then (record rf { voted_for = some args.candidate_id }, true)
      else (rf, false)

  abbrev pub notify : Raft C → ℕ → List (Effect C)
  notify rf n = if is_follower rf.state then rpc_ch n ∷ [] else []

  unfoldable pub request_vote :
      Raft C → RequestVoteArgs → Raft C × RequestVoteReply × List (Effect C)
  unfolding adopt_term cast_vote
  request_vote rf args =
      if ltb args.term rf.current_term
      then (rf, record { term = rf.current_term; vote_granted = false }, notify rf 1)
      else let (rf1, spawned) = adopt_term rf args.term in
        let (rf2, granted) = cast_vote rf1 args in
        (rf2, record { term = rf2.current_term; vote_granted = granted }, notify rf 1 ++ spawned)

  -- The first critical section of `toFollower`.
  unfoldable pub to_follower : Raft C → Raft C
  to_follower rf = record rf { voted_for = none }

  -- The case `<-timeCh` of `toFollower`.
  unfoldable pub follower_timeout : Raft C → Raft C × List (Effect C)
  follower_timeout rf = (record rf { state = candidate }, go_to_candidate ∷ [])

  -- One round of `toCandidate`, up to the start of the election.
  unfoldable pub to_candidate : Raft C → Raft C
  to_candidate rf = record rf { state = candidate; current_term = rf.current_term + 1 }

  -- The calls of `startElection`, to every peer but the candidate: `rounds` peers from `si` on.
  pub ask_peers : ℕ → ℕ → ℕ → RequestVoteArgs → List (Effect C)
  ask_peers zero si me args = []
  ask_peers (suc rounds) si me args =
      let rest = ask_peers rounds (si + 1) me args in
      if si == me then rest else send_request_vote si args ∷ rest

  abbrev pub vote_args : Raft C → LogEntry C → RequestVoteArgs
  vote_args rf last = record {
    term = rf.current_term;
    candidate_id = rf.me;
    last_log_index = last.index;
    last_log_term = last.term;
  }

  -- `startElection` up to its loop: nothing if the peer has been killed, and `none` where the
  -- empty log makes the source panic.
  unfoldable pub start_election : Raft C → Option (Raft C × List (Effect C))
  unfolding ask_peers
  start_election rf = if rf.dead then some (rf, []) else elim (last_entry rf.log) [
    | none ↦ none
    | some last ↦ some (
      record rf { voted_for = some rf.me; votes_got = 1 },
      ask_peers rf.num_peers 0 rf.me (vote_args rf last),
    )
  ]

  -- A vote for the candidate: counted, and the election is won with a majority.
  unfoldable pub count_vote : Raft C → Raft C × List (Effect C) × Bool
  unfolding is_elected
  count_vote rf =
      let rf1 = record rf { votes_got = rf.votes_got + 1 } in
      if is_elected rf1
      then (record rf1 { state = leader }, go_to_leader ∷ [], true)
      else (rf1, [], false)

  -- The case `reply := <-rvreplyCh` of `startElection`; the flag says that the election is over.
  unfoldable pub election_reply : Raft C → RequestVoteReply → Raft C × List (Effect C) × Bool
  unfolding count_vote
  election_reply rf reply =
      if ltb rf.current_term reply.term
      then (record rf { current_term = reply.term; state = follower }, go_to_follower ∷ [], true)
      else if reply.vote_granted
      then count_vote rf
      else (rf, [], false)
