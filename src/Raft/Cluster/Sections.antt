-- ===== src/Raft/Cluster/Sections.antt =====
-- raft-demo/src/raft: what every critical section keeps of a peer.
use dist_sys_demos.Base.{
  ℕ, zero, suc, ◌-◌, ◌≤◌, ◌≡◌, refl, subst, Bool, Option, none, some, List, [], ◌∷◌, length,
  length-append, arith, ltb, leb, ◌&&◌, ◌==◌, ◌/◌, if◌then◌else◌, Bool-cases, Option-cases, inl,
  inr, get_elem?,
}
use dist_sys_demos.Raft.State.{
  LogEntry, Raft, RequestVoteArgs, RequestVoteReply, AppendEntriesReply, Effect, is_leader, kill,
}
use dist_sys_demos.Raft.Log.{IndexedFrom-append}
use dist_sys_demos.Raft.Cluster.Terms.{UpTo-le, UpTo-append, IsPeer}
use dist_sys_demos.Raft.Election.{
  request_vote, adopt_term, cast_vote, to_follower, follower_timeout, to_candidate, start_election,
  election_reply, count_vote,
}
use dist_sys_demos.Raft.Leader.{
  start, start_append, to_leader, commit_at, count_matches, apply_rest, handle_reply,
}
use dist_sys_demos.Raft.Cluster.{
  Section, is_asked, follows, times_out, stands, asks, gets_vote, submits, leads, gets_reply,
  counts_peers, dies,
}

module _ {ℓ} {C : Type ℓ} where
  -- The peer's log is as it should be, and the term has not fallen.
  pub record Goes (rf rf1 : Raft C) : Type ℓ where
    pub peer : IsPeer rf1
    pub term : rf.current_term ≤ rf1.current_term

  pub same_log :
      (rf rf1 : Raft C)
      → IsPeer rf
      → rf1.log ≡ rf.log
      → rf.current_term ≤ rf1.current_term
      → Goes rf rf1
  same_log rf rf1 h e le = record {
    peer = record {
      logged = record { indexed = rw e h.logged.indexed; full = rw e h.logged.full };
      terms = rw e (UpTo-le rf.current_term rf1.current_term rf.log le h.terms);
    };
    term = le;
  }

  -- The same for a section that may panic.
  abbrev KeepsLog : Raft C → Option (Raft C × List (Effect C)) → Type ℓ
  KeepsLog rf none = Unit
  KeepsLog rf (some (rf1, sent)) = (rf1.log ≡ rf.log) × (rf1.current_term ≡ rf.current_term)

  apply_rest-KeepsLog : (rounds : ℕ) (rf : Raft C) → KeepsLog rf (apply_rest rounds rf)
  unfolding apply_rest
  apply_rest-KeepsLog zero rf = (refl, refl)
  apply_rest-KeepsLog (suc rounds) rf =
      ground (arith, apply_rest-KeepsLog rounds (record rf { last_applied = suc rf.last_applied }))

  commit_at-KeepsLog : (rf : Raft C) (index : ℕ) → KeepsLog rf (commit_at rf index)
  unfolding commit_at
  commit_at-KeepsLog rf index = elim (Bool-cases (leb index rf.commit_index)) [
    | inl old ↦ rw old (refl, refl)
    | inr new ↦ elim (Option-cases (get_elem? rf.log index)) [
      | inl outside ↦ rw (new, outside) tt
      | inr (x, here) ↦ elim (Option-cases (count_matches rf.num_peers 0 index rf)) [
        | inl fails ↦ rw (new, here, fails) tt
        | inr (n, counted) ↦
            let to =
              if ltb (rf.num_peers / 2) (suc n) && x.term == rf.current_term
              then index
              else rf.commit_index in
            rw (new, here, counted)
              (apply_rest-KeepsLog (to - rf.last_applied) (record rf { commit_index = to }))
      ]
    ]
  ]

  request_vote-Goes :
      (rf : Raft C) (args : RequestVoteArgs) → IsPeer rf → Goes rf (request_vote rf args).0
  unfolding request_vote adopt_term cast_vote
  request_vote-Goes rf args h = same_log rf (request_vote rf args).0 h (ground arith) (ground arith)

  election_reply-Goes :
      (rf : Raft C) (reply : RequestVoteReply) → IsPeer rf → Goes rf (election_reply rf reply).0
  unfolding election_reply count_vote
  election_reply-Goes rf reply h =
      same_log rf (election_reply rf reply).0 h (ground arith) (ground arith)

  start-Goes : (rf : Raft C) (command : C) → IsPeer rf → Goes rf (start rf command).0
  unfolding start start_append
  start-Goes rf command h = elim (Bool-cases (is_leader rf.state)) [
    | inr other ↦ rw other (same_log rf rf h refl (omega arith))
    | inl leading ↦
        let entry : LogEntry C = record {
          command = command;
          term = rf.current_term;
          index = length rf.log;
        } in
        rw leading (record {
          peer = record {
            logged = record {
              indexed = IndexedFrom-append 0 rf.log (entry ∷ []) h.logged.indexed (omega arith, tt);
              full = omega (arith, length-append rf.log (entry ∷ []));
            };
            terms = UpTo-append rf.current_term rf.log (entry ∷ []) h.terms (omega arith, tt);
          };
          term = omega arith;
        })
  ]

  start_election-Goes :
      (rf rf1 : Raft C) (sent : List (Effect C))
      → start_election rf ≡ some (rf1, sent)
      → IsPeer rf
      → Goes rf rf1
  unfolding start_election
  start_election-Goes rf rf1 sent e h = same_log rf rf1 h (ground arith) (ground arith)

  handle_reply-Goes :
      (rf rf1 : Raft C) (reply : AppendEntriesReply) (sent : List (Effect C)) (on : Bool)
      → handle_reply rf reply ≡ some (rf1, sent, on)
      → IsPeer rf
      → Goes rf rf1
  unfolding handle_reply
  handle_reply-Goes rf rf1 reply sent on e h = same_log rf rf1 h (ground arith) (ground arith)

  commit_at-Goes :
      (rf rf1 : Raft C) (index : ℕ) (sent : List (Effect C))
      → commit_at rf index ≡ some (rf1, sent)
      → IsPeer rf
      → Goes rf rf1
  commit_at-Goes rf rf1 index sent e h =
      let (same, term) = subst (KeepsLog rf) e (commit_at-KeepsLog rf index) in
      same_log rf rf1 h same (omega arith)

  pub Section-Goes : (rf : Raft C) {rf1 : Raft C} → IsPeer rf → Section rf rf1 → Goes rf rf1
  unfolding to_follower follower_timeout to_candidate to_leader kill
  Section-Goes rf h (is_asked args) = request_vote-Goes rf args h
  Section-Goes rf h follows = same_log rf _ h refl (omega arith)
  Section-Goes rf h times_out = same_log rf _ h refl (omega arith)
  Section-Goes rf h stands = same_log rf _ h refl (omega arith)
  Section-Goes rf h (asks {rf1} sent e) = start_election-Goes rf rf1 sent e h
  Section-Goes rf h (gets_vote reply) = election_reply-Goes rf reply h
  Section-Goes rf h (submits command) = start-Goes rf command h
  Section-Goes rf h leads = same_log rf _ h refl (omega arith)
  Section-Goes rf h (gets_reply {rf1} reply sent on e) = handle_reply-Goes rf rf1 reply sent on e h
  Section-Goes rf h (counts_peers {rf1} index sent e) = commit_at-Goes rf rf1 index sent e h
  Section-Goes rf h dies = same_log rf _ h refl (omega arith)
