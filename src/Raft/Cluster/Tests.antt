-- ===== src/Raft/Cluster/Tests.antt =====
-- A group of two peers, the first of which becomes the leader, gets a command and calls the second.
use dist_sys_demos.Base.{ℕ, ◌≤◌, ◌≡◌, refl, true, some, List, [], ◌∷◌}
use dist_sys_demos.Raft.State.{
  Raft, RequestVoteReply, AppendEntriesArgs, AppendEntriesReply, Effect, send_append_entries, make,
}
use dist_sys_demos.Raft.Append.{append_entries}
use dist_sys_demos.Raft.Cluster.Terms.{IsPeer}
use dist_sys_demos.Raft.Election.{
  to_candidate, start_election, ask_peers, vote_args, election_reply, count_vote, is_elected,
}
use dist_sys_demos.Raft.Leader.{
  start, start_append, to_leader, replicate, replicate_from, peer_args, missing_args, call_args,
}
use dist_sys_demos.Raft.Cluster.{
  stands, asks, gets_vote, leads, submits, Reach, made, acts, calls_out,
}
use dist_sys_demos.Raft.Cluster.Logs.{Reach-append_entries}

abbrev second : Raft ℕ
second = make 0 2 1

abbrev standing : Raft ℕ
standing = to_candidate (make 0 2 0)

abbrev asking : Raft ℕ
asking = record standing { voted_for = some 0; votes_got = 1 }

abbrev vote : RequestVoteReply
vote = record { term = 1; vote_granted = true }

abbrev elected : Raft ℕ
elected = (election_reply asking vote).0

abbrev leading : Raft ℕ
leading = (start (to_leader elected) 7).0

abbrev args : AppendEntriesArgs ℕ
args = call_args leading 0 (some 0) (record { command = 7; term = 1; index = 1 } ∷ [])

start_election-asking :
    start_election standing
    ≡ some
        (asking, ask_peers 2 0 0 (vote_args standing (record { command = 0; term = 0; index = 0 })))
unfolding start_election make to_candidate
start_election-asking = refl

replicate-leading : replicate leading ≡ some (send_append_entries 1 args ∷ [])
unfolding replicate replicate_from peer_args missing_args start start_append to_leader
    election_reply count_vote is_elected to_candidate make
replicate-leading = refl

group-Reach : Reach 0 2 (record { peers = leading ∷ second ∷ []; calls = args ∷ [] })
group-Reach =
    calls_out [] (second ∷ []) [] leading (send_append_entries 1 args ∷ [])
      (acts [] (second ∷ []) [] (to_leader elected) leading
        (acts [] (second ∷ []) [] elected (to_leader elected)
          (acts [] (second ∷ []) [] asking elected
            (acts [] (second ∷ []) [] standing asking
              (acts [] (second ∷ []) [] (make 0 2 0) standing made stands)
              (asks
                (ask_peers 2 0 0 (vote_args standing (record { command = 0; term = 0; index = 0 })))
                start_election-asking))
            (gets_vote vote))
          leads)
        (submits 7))
      replicate-leading

Reach-append_entries_example :
    (r : Raft ℕ × AppendEntriesReply × List (Effect ℕ)) × (append_entries second args ≡ some r)
    × (second.current_term ≤ r.0.current_term)
    × IsPeer r.0
Reach-append_entries_example = Reach-append_entries (leading ∷ []) [] [] [] second args group-Reach
