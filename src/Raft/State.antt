-- ===== src/Raft/State.antt =====
-- raft-demo/src/raft/raft.go, rpc.go and util.go: the state of a peer, the messages of the two
-- calls, and the small methods that read the state. `C` is the type of the commands, which the
-- peer only stores and passes on. Terms, indices and ids are the source's non-negative ints.
use dist_sys_demos.Base.{ℕ, Bool, true, false, Option, none, some, List, [], ◌∷◌, get_elem?}
use dist_sys_demos.Base.Int.{ℤ}

-- `RaftState`; `stopped` is the -1 that `Kill` writes.
pub data RaftState : Type 0 where
  follower candidate leader stopped : RaftState

pub record LogEntry {ℓ} (C : Type ℓ) : Type ℓ where
  pub command : C
  pub term : ℕ
  pub index : ℕ

-- `ApplyMsg`, whose `CommandValid` is true in every message that the peer sends.
pub record ApplyMsg {ℓ} (C : Type ℓ) : Type ℓ where
  pub command_valid : Bool
  pub command : C
  pub command_index : ℕ

-- `none` in `voted_for` is the source's -1. `next_index` counts down without a check, so it is
-- an integer.
pub record Raft {ℓ} (C : Type ℓ) : Type ℓ where
  pub me : ℕ
  pub dead : Bool
  pub current_term : ℕ
  pub voted_for : Option ℕ
  pub log : List (LogEntry C)
  pub commit_index : ℕ
  pub last_applied : ℕ
  pub next_index : List ℤ
  pub match_index : List ℕ
  pub state : RaftState
  pub votes_got : ℕ
  pub num_peers : ℕ

pub record RequestVoteArgs : Type 0 where
  pub term : ℕ
  pub candidate_id : ℕ
  pub last_log_index : ℕ
  pub last_log_term : ℕ

pub record RequestVoteReply : Type 0 where
  pub term : ℕ
  pub vote_granted : Bool

-- `none` in `prev_log_term` is the source's -1.
pub record AppendEntriesArgs {ℓ} (C : Type ℓ) : Type ℓ where
  pub term : ℕ
  pub leader_id : ℕ
  pub prev_log_index : ℕ
  pub prev_log_term : Option ℕ
  pub entries : List (LogEntry C)
  pub leader_commit : ℕ

pub record AppendEntriesReply : Type 0 where
  pub follower_id : ℕ
  pub term : ℕ
  pub last_log_index : ℕ
  pub is_heartbeat : Bool
  pub success : Bool

-- What a handler does besides changing the state, in the order in which it does it: it sends on a
-- channel, starts a goroutine, or starts a call of a peer.
pub data Effect {ℓ} (C : Type ℓ) : Type ℓ where
  rpc_ch : ℕ → Effect C
  entry_ch : LogEntry C → Effect C
  apply_ch : ApplyMsg C → Effect C
  go_to_follower : Effect C
  go_to_candidate : Effect C
  go_to_leader : Effect C
  go_commit_at : ℕ → Effect C
  send_request_vote : ℕ → RequestVoteArgs → Effect C
  send_append_entries : ℕ → AppendEntriesArgs C → Effect C

abbrev pub is_follower : RaftState → Bool
is_follower follower = true
is_follower _ = false

abbrev pub is_candidate : RaftState → Bool
is_candidate candidate = true
is_candidate _ = false

abbrev pub is_leader : RaftState → Bool
is_leader leader = true
is_leader _ = false

module _ {ℓ} {C : Type ℓ} where
  -- `rf.log[len(rf.log)-1]`
  abbrev pub last_entry : List (LogEntry C) → Option (LogEntry C)
  last_entry [] = none
  last_entry (x ∷ []) = some x
  last_entry (x ∷ y ∷ l) = last_entry (y ∷ l)

  -- `rf.log[i].Term`; `none` is an index out of range.
  abbrev pub term_at : List (LogEntry C) → ℕ → Option ℕ
  term_at l i = elim (get_elem? l i) [ none ↦ none | some x ↦ some x.term ]

  -- `Make`, with the entry's command `0` as a parameter.
  unfoldable pub make : C → ℕ → ℕ → Raft C
  make zero_command num_peers me = record {
    me = me;
    dead = false;
    current_term = 0;
    voted_for = some 0;
    log = record { command = zero_command; term = 0; index = 0 } ∷ [];
    commit_index = 0;
    last_applied = 0;
    next_index = [];
    match_index = [];
    state = follower;
    votes_got = 0;
    num_peers = num_peers;
  }

  unfoldable pub kill : Raft C → Raft C
  kill rf = record rf { dead = true; state = stopped }

  pub get_state : Raft C → ℕ × Bool
  get_state rf = (rf.current_term, is_leader rf.state)
