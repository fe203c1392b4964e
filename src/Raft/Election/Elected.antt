-- ===== src/Raft/Election/Elected.antt =====
-- raft-demo/src/raft/raft.go: how `startElection` counts votes, and what the goroutines of
-- `toFollower` do to the vote.
use dist_sys_demos.Base.{◌∙◌, sym, ◌+◌, ◌/◌, ◌<◌, ◌≡◌, ◌≢◌, true, false, [], ◌∷◌, arith}
use dist_sys_demos.Raft.State.{
  follower, leader, Raft, RequestVoteArgs, RequestVoteReply, go_to_follower, is_follower,
}
use dist_sys_demos.Raft.Election.{
  is_elected, is_cand_up_to_date, adopt_term, cast_vote, request_vote, to_follower, count_vote,
  election_reply,
}

module _ {ℓ} {C : Type ℓ} where
  -- An answer makes a leader of a peer that was none only with a majority of votes, the new one
  -- included; the peer stays in its term, and the election is over.
  pub election_reply-majority :
      (rf : Raft C) (reply : RequestVoteReply)
      → rf.state ≢ leader
      → (election_reply rf reply).0.state ≡ leader
      → let (rf1, sent, over) = election_reply rf reply in
        (rf.num_peers / 2 < rf1.votes_got)
        × (rf1.votes_got ≡ rf.votes_got + 1)
        × (rf1.current_term ≡ rf.current_term)
        × (reply.vote_granted ≡ true)
        × (over ≡ true)
  unfolding election_reply count_vote is_elected
  election_reply-majority rf reply other elected = ground arith

  -- A vote of an older term that completes the majority makes a leader of a peer that has
  -- meanwhile become a follower in a later term: the answer's term and the peer's role are not
  -- looked at.
  pub election_reply-stale :
      (rf : Raft C) (reply : RequestVoteReply)
      → rf.state ≡ follower
      → reply.term < rf.current_term
      → reply.vote_granted ≡ true
      → rf.num_peers / 2 < rf.votes_got + 1
      → let (rf1, sent, over) = election_reply rf reply in
        (rf1.state ≡ leader) × (rf1.current_term ≡ rf.current_term)
  unfolding election_reply count_vote is_elected
  election_reply-stale rf reply state old granted most = ground arith

  request_vote-higher :
      (rf : Raft C) (call : RequestVoteArgs)
      → is_follower rf.state ≡ false
      → rf.current_term < call.term
      → let r = request_vote rf call in
        (r.2 ≡ go_to_follower ∷ []) × (r.0.current_term ≡ call.term) × (r.0.log ≡ rf.log)
  unfolding request_vote adopt_term cast_vote
  request_vote-higher rf call state t = ground arith

  election_reply-higher :
      (rf : Raft C) (reply : RequestVoteReply)
      → rf.current_term < reply.term
      → let r = election_reply rf reply in
        (r.1 ≡ go_to_follower ∷ []) × (r.0.current_term ≡ reply.term) × (r.0.log ≡ rf.log)
  unfolding election_reply
  election_reply-higher rf reply t = ground arith

  request_vote-to_follower :
      (rf : Raft C) (a : RequestVoteArgs)
      → a.term ≡ rf.current_term
      → is_cand_up_to_date rf a ≡ true
      → let r = request_vote (to_follower rf) a in
        (r.1.vote_granted ≡ true)
        × (r.1.term ≡ rf.current_term)
        × (r.0.current_term ≡ rf.current_term)
        × (r.0.log ≡ rf.log)
  unfolding request_vote adopt_term cast_vote is_cand_up_to_date to_follower
  request_vote-to_follower rf a t up = ground arith

  up_to_date-log :
      (rf rf1 : Raft C) (a : RequestVoteArgs)
      → rf1.log ≡ rf.log
      → is_cand_up_to_date rf a ≡ true
      → is_cand_up_to_date rf1 a ≡ true
  unfolding is_cand_up_to_date
  up_to_date-log rf rf1 a h up = rw h up

  -- A peer that is no follower, and sees a larger term in a call and then a still larger one in an
  -- answer, starts `toFollower` twice. Each of the two runs clears the vote, so that two candidates whose logs are
  -- recent get it in one term.
  pub request_vote-to_follower-twice :
      (rf : Raft C) (call : RequestVoteArgs) (reply : RequestVoteReply) (a b : RequestVoteArgs)
      → is_follower rf.state ≡ false
      → rf.current_term < call.term
      → call.term < reply.term
      → a.term ≡ reply.term
      → b.term ≡ reply.term
      → is_cand_up_to_date rf a ≡ true
      → is_cand_up_to_date rf b ≡ true
      → let r0 = request_vote rf call in
        let r1 = election_reply r0.0 reply in
        let r2 = request_vote (to_follower r1.0) a in
        let r3 = request_vote (to_follower r2.0) b in
        (r0.2 ≡ go_to_follower ∷ [])
        × (r1.1 ≡ go_to_follower ∷ [])
        × (r2.1.vote_granted ≡ true)
        × (r3.1.vote_granted ≡ true)
        × (r2.1.term ≡ reply.term)
        × (r3.1.term ≡ reply.term)
  request_vote-to_follower-twice rf call reply a b state t0 t1 ta tb ua ub =
      let r0 = request_vote rf call in
      let r1 = election_reply r0.0 reply in
      let r2 = request_vote (to_follower r1.0) a in
      let h0 = request_vote-higher rf call state t0 in
      let h1 = election_reply-higher r0.0 reply (rw h0.1 t1) in
      let h2 =
        request_vote-to_follower r1.0 a (ta ∙ sym h1.1)
          (up_to_date-log rf r1.0 a (h1.2 ∙ h0.2) ua) in
      let h3 =
        request_vote-to_follower r2.0 b (tb ∙ sym (h2.2 ∙ h1.1))
          (up_to_date-log rf r2.0 b (h2.3 ∙ h1.2 ∙ h0.2) ub) in
      (h0.0, h1.0, h2.0, h3.0, h2.1 ∙ h1.1, h3.1 ∙ h2.2 ∙ h1.1)
