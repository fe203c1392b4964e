-- ===== src/Raft/Cluster.antt =====
-- raft-demo/src/raft: the peers of a group and the calls of `AppendEntries` that are under way. A
-- call may arrive late, more than once, or not at all. The other messages are not bound to any call:
-- a peer may get any `RequestVote`, and any reply.
pub mod Terms
pub mod Sections
pub mod Calls
pub mod Logs
mod Tests
use dist_sys_demos.Base.{ℕ, zero, suc, ◌≡◌, Bool, Option, none, some, List, [], ◌∷◌, ◌++◌}
use dist_sys_demos.Base.Int.{ℤ}
use dist_sys_demos.Raft.State.{
  Raft, RequestVoteArgs, RequestVoteReply, AppendEntriesArgs, AppendEntriesReply, Effect,
  send_append_entries, make, kill,
}
use dist_sys_demos.Raft.Append.{append_entries}
use dist_sys_demos.Raft.Election.{
  request_vote, to_follower, follower_timeout, to_candidate, start_election, election_reply,
}
use dist_sys_demos.Raft.Leader.{start, to_leader, replicate, commit_at, handle_reply}

pub record Cluster {ℓ} (C : Type ℓ) : Type ℓ where
  pub peers : List (Raft C)
  pub calls : List (AppendEntriesArgs C)

module _ {ℓ} {C : Type ℓ} where
  -- The critical sections of a peer, but for `AppendEntries`. They may come in any order, whichever
  -- goroutines the peer's role has started.
  pub data Section (rf : Raft C) : Raft C → Type ℓ where
    is_asked : (args : RequestVoteArgs) → Section rf (request_vote rf args).0
    follows : Section rf (to_follower rf)
    times_out : Section rf (follower_timeout rf).0
    stands : Section rf (to_candidate rf)
    asks :
        {rf1 : Raft C} (sent : List (Effect C))
        → start_election rf ≡ some (rf1, sent)
        → Section rf rf1
    gets_vote : (reply : RequestVoteReply) → Section rf (election_reply rf reply).0
    submits : (command : C) → Section rf (start rf command).0
    leads : Section rf (to_leader rf)
    gets_reply :
        {rf1 : Raft C} (reply : AppendEntriesReply) (sent : List (Effect C)) (on : Bool)
        → handle_reply rf reply ≡ some (rf1, sent, on)
        → Section rf rf1
    counts_peers :
        {rf1 : Raft C} (index : ℕ) (sent : List (Effect C))
        → commit_at rf index ≡ some (rf1, sent)
        → Section rf rf1
    dies : Section rf (kill rf)

  -- The calls of `AppendEntries` among what a section does.
  abbrev pub calls_of : List (Effect C) → List (AppendEntriesArgs C)
  calls_of [] = []
  calls_of (send_append_entries si args ∷ sent) = args ∷ calls_of sent
  calls_of (e ∷ sent) = calls_of sent

  -- The peers that `Make` makes, from number `i` on.
  abbrev pub make_all : C → ℕ → ℕ → ℕ → List (Raft C)
  make_all zero_command n zero i = []
  make_all zero_command n (suc rounds) i =
      make zero_command n i ∷ make_all zero_command n rounds (suc i)

  -- The states that a group of `n` peers reaches.
  pub data Reach (zero_command : C) (n : ℕ) : Cluster C → Type ℓ where
    made : Reach zero_command n (record { peers = make_all zero_command n n 0; calls = [] })
    acts :
        (before after : List (Raft C)) (calls : List (AppendEntriesArgs C)) (rf rf1 : Raft C)
        → Reach zero_command n (record { peers = before ++ rf ∷ after; calls = calls })
        → Section rf rf1
        → Reach zero_command n (record { peers = before ++ rf1 ∷ after; calls = calls })
    calls_out :
        (before after : List (Raft C)) (calls : List (AppendEntriesArgs C)) (rf : Raft C)
        (sent : List (Effect C))
        → Reach zero_command n (record { peers = before ++ rf ∷ after; calls = calls })
        → replicate rf ≡ some sent
        → Reach zero_command n
            (record { peers = before ++ rf ∷ after; calls = calls_of sent ++ calls })
    is_called :
        (before after : List (Raft C)) (older newer : List (AppendEntriesArgs C)) (rf rf1 : Raft C)
        (args : AppendEntriesArgs C) (reply : AppendEntriesReply) (sent : List (Effect C))
        → Reach zero_command n
            (record { peers = before ++ rf ∷ after; calls = newer ++ args ∷ older })
        → append_entries rf args ≡ some (rf1, reply, sent)
        → Reach zero_command n
            (record { peers = before ++ rf1 ∷ after; calls = newer ++ args ∷ older })
