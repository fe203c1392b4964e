-- ===== src/Raft/Leader.antt =====
-- raft-demo/src/raft/raft.go: the leader. `Start`, the set-up of `toLeader`, `replicate`,
-- `handleReply` and `commitAt`, one function for each critical section.
pub mod Commit
pub mod Replicate
pub mod Failures
pub mod Tables
pub mod Bounds
mod Tests
use dist_sys_demos.Base.{
  ℕ, zero, suc, ◌+◌, ◌-◌, ◌/◌, Bool, true, false, ◌&&◌, Option, none, some, List, [], ◌∷◌, ◌++◌,
  length, drop, set, get_elem?, ltb, leb, ◌==◌, if◌then◌else◌,
}
use dist_sys_demos.Base.Int.{ℤ, pos, negsuc, ◌-ℤ◌}
use dist_sys_demos.Raft.State.{
  LogEntry, follower, Raft, AppendEntriesArgs, AppendEntriesReply, Effect, entry_ch, apply_ch,
  go_to_follower, go_commit_at, send_append_entries, is_leader,
}

-- The `n` values of a counter that starts at `i`.
abbrev pub tabulate {ℓ} : {A : Type ℓ} → ℕ → ℕ → (ℕ → A) → List A
tabulate zero i f = []
tabulate (suc n) i f = f i ∷ tabulate n (suc i) f

-- `lastLogIndex >= rf.nextIndex[si]`
abbrev pub is_behind : ℕ → ℤ → Bool
is_behind len (pos n) = ltb n len
is_behind len (negsuc n) = true

module _ {ℓ} {C : Type ℓ} where
  -- The second half of `Start`, once the peer has been found to be the leader.
  unfoldable pub start_append : Raft C → C → Raft C × List (Effect C) × (ℕ × ℕ)
  start_append rf command =
      let entry : LogEntry C = record {
        command = command;
        term = rf.current_term;
        index = length rf.log;
      } in
      (
        record rf { log = rf.log ++ (entry ∷ []) },
        entry_ch entry ∷ [],
        (length rf.log, rf.current_term),
      )

  -- `Start`, where nothing happens between its two critical sections. `none` is the answer
  -- (-1, -1, false) of a peer that is not the leader.
  unfoldable pub start : Raft C → C → Raft C × List (Effect C) × Option (ℕ × ℕ)
  start rf command =
      if is_leader rf.state
      then (let (rf1, sent, answer) = start_append rf command in (rf1, sent, some answer))
      else (rf, [], none)

  -- `toLeader` up to its loop.
  unfoldable pub to_leader : Raft C → Raft C
  to_leader rf = record rf {
    next_index = tabulate rf.num_peers 0 (λ si. if si == rf.me then pos 0 else pos (length rf.log));
    match_index = tabulate rf.num_peers 0 (λ si. 0);
  }

  abbrev pub call_args : Raft C → ℕ → Option ℕ → List (LogEntry C) → AppendEntriesArgs C
  call_args rf prev prev_term entries = record {
    term = rf.current_term;
    leader_id = rf.me;
    prev_log_index = prev;
    prev_log_term = prev_term;
    entries = entries;
    leader_commit = rf.commit_index;
  }

  -- The arguments for a peer whose next index is at most the last one: its entries are sent.
  -- `none` is an index below zero.
  unfoldable pub missing_args : Raft C → ℤ → Option (AppendEntriesArgs C)
  missing_args rf (pos zero) = none
  missing_args rf (negsuc n) = none
  missing_args rf (pos (suc prev)) = elim (get_elem? rf.log prev) [
    | none ↦ none
    | some x ↦ some (call_args rf prev (some x.term) (drop (suc prev) rf.log))
  ]

  -- The arguments for one peer: a heartbeat names the last entry.
  unfoldable pub peer_args : Raft C → ℤ → Option (AppendEntriesArgs C)
  peer_args rf next = elim (get_elem? rf.log (length rf.log - 1)) [
    | none ↦ none
    | some x ↦
        if is_behind (length rf.log) next
        then missing_args rf next
        else some (call_args rf (length rf.log - 1) (some x.term) [])
  ]

  -- The loop of `replicate` from peer `si` on; `none` is an index out of range.
  unfoldable pub replicate_from : ℕ → ℕ → Raft C → Option (List (Effect C))
  replicate_from zero si rf = some []
  replicate_from (suc rounds) si rf =
      let rest = replicate_from rounds (suc si) rf in
      if si == rf.me then rest else elim (get_elem? rf.next_index si) [
        | none ↦ none
        | some next ↦ elim (peer_args rf next) [
          | none ↦ none
          | some args ↦ elim rest [
            | none ↦ none
            | some sent ↦ some (send_append_entries si args ∷ sent)
          ]
        ]
      ]

  -- `replicate`: the entry that it is given is not used.
  unfoldable pub replicate : Raft C → Option (List (Effect C))
  replicate rf = if is_leader rf.state then replicate_from rf.num_peers 0 rf else some []

  -- The peers from `si` on, other than the leader, whose match index has reached `index`.
  pub count_matches : ℕ → ℕ → ℕ → Raft C → Option ℕ
  count_matches zero si index rf = some 0
  count_matches (suc rounds) si index rf =
      let rest = count_matches rounds (suc si) index rf in
      if si == rf.me then rest else elim (get_elem? rf.match_index si) [
        | none ↦ none
        | some m ↦ elim rest [ none ↦ none | some n ↦ some (if leb index m then suc n else n) ]
      ]

  -- The loop that ends `commitAt`, with the number of its rounds.
  unfoldable pub apply_rest : ℕ → Raft C → Option (Raft C × List (Effect C))
  apply_rest zero rf = some (rf, [])
  apply_rest (suc rounds) rf =
      let next = suc rf.last_applied in
      let rest = apply_rest rounds (record rf { last_applied = next }) in
      elim (get_elem? rf.log next) [
        | none ↦ none
        | some x ↦ elim rest [
          | none ↦ none
          | some (rf1, sent) ↦ some (
            rf1,
            apply_ch (record { command_valid = true; command = x.command; command_index = x.index })
                ∷ sent,
          )
        ]
      ]

  -- `commitAt`; `none` is an index out of range, also that of its trace message.
  unfoldable pub commit_at : Raft C → ℕ → Option (Raft C × List (Effect C))
  commit_at rf index =
      if leb index rf.commit_index then some (rf, []) else elim (get_elem? rf.log index) [
        | none ↦ none
        | some x ↦ elim (count_matches rf.num_peers 0 index rf) [
          | none ↦ none
          | some n ↦
              let commits = ltb (rf.num_peers / 2) (suc n) && x.term == rf.current_term in
              let rf1 = record rf { commit_index = if commits then index else rf.commit_index } in
              apply_rest (rf1.commit_index - rf1.last_applied) rf1
        ]
      ]

  -- A round of `handleReply`; the flag says that the loop goes on. `none` is an id out of range.
  unfoldable pub handle_reply :
      Raft C → AppendEntriesReply → Option (Raft C × List (Effect C) × Bool)
  handle_reply rf reply =
      if ltb rf.current_term reply.term
      then some
          (record rf { current_term = reply.term; state = follower }, go_to_follower ∷ [], false)
      else if reply.success
      then if reply.is_heartbeat
        then some (rf, [], true)
        else elim (get_elem? rf.match_index reply.follower_id) [
          | none ↦ none
          | some m ↦ elim (get_elem? rf.next_index reply.follower_id) [
            | none ↦ none
            | some next ↦ some (
              record rf {
                match_index =
                    if ltb m reply.last_log_index
                    then set rf.match_index reply.follower_id reply.last_log_index
                    else rf.match_index;
                next_index = set rf.next_index reply.follower_id (pos (reply.last_log_index + 1));
              },
              go_commit_at reply.last_log_index ∷ [],
              true,
            )
          ]
        ]
      else elim (get_elem? rf.next_index reply.follower_id) [
        | none ↦ none
        | some next ↦ some (
          record rf { next_index = set rf.next_index reply.follower_id (next -ℤ pos 1) },
          [],
          true,
        )
      ]
