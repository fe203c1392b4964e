-- ===== src/Raft/Leader/Tests.antt =====
-- A leader of three peers: it takes a command, and is told that a peer lacks the preceding entry.
use dist_sys_demos.Base.{
  ℕ, ◌<◌, ◌≤◌, ◌⊎◌, ◌≡◌, refl, Bool, true, false, none, some, List, [], ◌∷◌, length, arith,
}
use dist_sys_demos.Base.Int.{pos, ◌-ℤ◌}
use dist_sys_demos.Raft.State.{LogEntry, Raft, Effect, AppendEntriesReply, leader}
use dist_sys_demos.Raft.Append.Parts.{IsLogged}
use dist_sys_demos.Raft.Leader.{to_leader, start_append, start, replicate, commit_at, handle_reply}
use dist_sys_demos.Raft.Leader.Tables.{IsReply}
use dist_sys_demos.Raft.Leader.Bounds.{Leads, elected, starts, replies, Leads-bounds}

abbrev item : ℕ → ℕ → ℕ → LogEntry ℕ
item c t i = record { command = c; term = t; index = i }

abbrev chosen : Raft ℕ
chosen = record {
  me = 0;
  dead = false;
  current_term = 2;
  voted_for = some 0;
  log = item 0 0 0 ∷ item 7 1 1 ∷ [];
  commit_index = 0;
  last_applied = 0;
  next_index = [];
  match_index = [];
  state = leader;
  votes_got = 2;
  num_peers = 3;
}

chosen-IsLogged : IsLogged chosen
chosen-IsLogged = record { indexed = (refl, (refl, tt)); full = omega arith }

abbrev told : AppendEntriesReply
told = record {
  follower_id = 1;
  term = 2;
  last_log_index = 0;
  is_heartbeat = false;
  success = false;
}

abbrev started : Raft ℕ
started = record chosen {
  log = item 0 0 0 ∷ item 7 1 1 ∷ item 5 2 2 ∷ [];
  next_index = pos 0 ∷ pos 2 ∷ pos 2 ∷ [];
  match_index = 0 ∷ 0 ∷ 0 ∷ [];
}

abbrev after : Raft ℕ
after = record started { next_index = pos 0 ∷ pos 1 ∷ pos 2 ∷ [] }

started-Leads : Leads chosen started
unfolding to_leader start start_append
started-Leads = starts (to_leader chosen) 5 elected

told-IsReply : IsReply started told
told-IsReply = (omega arith, λ refused one. ground (arith, one))

told-after : handle_reply started told ≡ some (after, [], true)
unfolding handle_reply ◌-ℤ◌
told-after = refl

Leads-bounds_example :
    ((sent : List (Effect ℕ)) × (replicate after ≡ some sent))
    × ((index : ℕ)
        → ((index < length after.log)
            × (r : Raft ℕ × List (Effect ℕ)) × (commit_at after index ≡ some r))
          ⊎ ((length after.log ≤ index) × (commit_at after index ≡ none)))
    × ((reply : AppendEntriesReply)
        → reply.follower_id < after.num_peers
        → (r : Raft ℕ × List (Effect ℕ) × Bool) × (handle_reply after reply ≡ some r))
    × (after.commit_index < length after.log)
Leads-bounds_example =
    Leads-bounds chosen chosen-IsLogged (omega arith) (omega arith)
      (replies started after told [] true started-Leads told-IsReply told-after)
