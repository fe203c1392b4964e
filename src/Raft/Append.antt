-- ===== src/Raft/Append.antt =====
-- raft-demo/src/raft/rpc.go: `AppendEntries`, with one function for each of its loops.
pub mod Merge
pub mod Parts
pub mod Refused
pub mod Handler
use dist_sys_demos.Base.{
  ℕ, zero, suc, ◌-◌, Bool, true, false, ◌&&◌, ◌||◌, not, Option, none, some, List, [], ◌∷◌, ◌++◌,
  length, take, get_elem?, min, ltb, leb, ◌==◌, if◌then◌else◌,
}
use dist_sys_demos.Base.Dict.{Dict, lookup, insert}
use dist_sys_demos.Base.{nat_eq}
use dist_sys_demos.Raft.State.{
  LogEntry, follower, Raft, ApplyMsg, AppendEntriesArgs, AppendEntriesReply, Effect, rpc_ch,
  apply_ch, go_to_follower, is_follower, is_candidate, last_entry, term_at,
}

abbrev pub is_some {ℓ} : {A : Type ℓ} → Option A → Bool
is_some none = false
is_some (some a) = true

-- `v != w` where the left side is an element of a slice that may be out of range.
abbrev pub differs : Option ℕ → ℕ → Bool
differs none t = true
differs (some s) t = not (s == t)

module _ {ℓ} {C : Type ℓ} where
  -- The first loop over the entries, from the `i`th on: the log, cut before the first entry that
  -- conflicts with it, and the positions of the entries that the log holds already.
  pub find_conflict :
      List (LogEntry C) → ℕ → List (LogEntry C) → Dict ℕ Bool → List (LogEntry C) × Dict ℕ Bool
  find_conflict [] i log in_log = (log, in_log)
  find_conflict (e ∷ es) i log in_log =
      let inside = ltb e.index (length log) in
      let rest = find_conflict es (suc i) log (if inside then insert i true in_log else in_log) in
      if inside && differs (term_at log e.index) e.term then (take e.index log, in_log) else rest

  -- The second loop: from the first entry that the log lacks, every entry is appended.
  pub append_missing :
      List (LogEntry C) → ℕ → Dict ℕ Bool → Bool → List (LogEntry C) → List (LogEntry C)
  append_missing [] i in_log need log = log
  append_missing (e ∷ es) i in_log need log =
      let need1 = need || not (is_some (lookup i in_log)) in
      append_missing es (suc i) in_log need1 (if need1 then log ++ (e ∷ []) else log)

  -- Both loops; the first is skipped if the log is empty.
  pub merge_entries : List (LogEntry C) → List (LogEntry C) → List (LogEntry C)
  unfolding find_conflict append_missing
  merge_entries log es =
      let found = if ltb 0 (length log) then find_conflict es 0 log [] else (log, []) in
      append_missing es 0 found.1 false found.0

  -- The messages for `count` entries of the log after `from`; `none` is an index out of range.
  pub apply_entries : List (LogEntry C) → ℕ → ℕ → Option (List (ApplyMsg C))
  apply_entries log from zero = some []
  apply_entries log from (suc count) =
      let rest = apply_entries log (suc from) count in
      elim (get_elem? log (suc from)) [
        | none ↦ none
        | some x ↦ elim rest [
          | none ↦ none
          | some msgs ↦
              some (
                record { command_valid = true; command = x.command; command_index = x.index }
                ∷ msgs)
        ]
      ]

  abbrev pub deliveries : List (ApplyMsg C) → List (Effect C)
  deliveries [] = []
  deliveries (m ∷ ms) = apply_ch m ∷ deliveries ms

  -- The part under `args.LeaderCommit > rf.commitIndex`.
  pub advance_commit : Raft C → ℕ → Option (Raft C × List (Effect C))
  advance_commit rf leader_commit =
      if ltb rf.commit_index leader_commit
      then elim (last_entry rf.log) [
        | none ↦ none
        | some last ↦
            let commit = min leader_commit last.index in
            elim (apply_entries rf.log rf.commit_index (commit - rf.commit_index)) [
              | none ↦ none
              | some msgs ↦ some (record rf { commit_index = commit }, deliveries msgs)
            ]
      ]
      else some (rf, [])

  -- The term of the call is taken over if it is larger, or if the peer is a candidate.
  pub accept_leader : Raft C → ℕ → Raft C × List (Effect C)
  accept_leader rf term =
      if ltb rf.current_term term || is_candidate rf.state
      then (
        record rf { current_term = term; state = follower },
        if is_follower rf.state then [] else go_to_follower ∷ [],
      )
      else (rf, [])

  -- `len(rf.log)-1 < args.PrevLogIndex || rf.log[args.PrevLogIndex].Term != args.PrevLogTerm`,
  -- which is skipped if the term is -1.
  unfoldable pub lacks_prev : List (LogEntry C) → AppendEntriesArgs C → Bool
  lacks_prev log args = elim args.prev_log_term [
    | none ↦ false
    | some t ↦ leb (length log) args.prev_log_index || differs (term_at log args.prev_log_index) t
  ]

  abbrev pub is_empty : List (LogEntry C) → Bool
  is_empty [] = true
  is_empty (x ∷ l) = false

  abbrev pub reply_of : Raft C → AppendEntriesArgs C → ℕ → Bool → AppendEntriesReply
  reply_of rf args last ok = record {
    follower_id = rf.me;
    term = rf.current_term;
    last_log_index = last;
    is_heartbeat = is_empty args.entries;
    success = ok;
  }

  -- The handler after both early returns.
  pub store_entries :
      Raft C → AppendEntriesArgs C → Option (Raft C × AppendEntriesReply × List (Effect C))
  store_entries rf args =
      let rf1 = record rf { log = merge_entries rf.log args.entries } in
      elim (advance_commit rf1 args.leader_commit) [
        | none ↦ none
        | some (rf2, sent) ↦ some (rf2, reply_of rf2 args (length rf2.log - 1) true, sent)
      ]

  abbrev pub prepend :
      List (Effect C)
      → Option (Raft C × AppendEntriesReply × List (Effect C))
      → Option (Raft C × AppendEntriesReply × List (Effect C))
  prepend before none = none
  prepend before (some (rf, reply, sent)) = some (rf, reply, before ++ sent)

  -- `rf.rpcCh <- 2` in state FOLLOWER
  abbrev pub noted : Raft C → List (Effect C)
  noted rf = if is_follower rf.state then rpc_ch 2 ∷ [] else []

  -- `none` where the source panics on an index out of range.
  pub append_entries :
      Raft C → AppendEntriesArgs C → Option (Raft C × AppendEntriesReply × List (Effect C))
  append_entries rf args =
      if ltb args.term rf.current_term
      then some (rf, reply_of rf args 0 false, noted rf)
      else let (rf1, spawned) = accept_leader rf args.term in
        if lacks_prev rf1.log args
        then some (rf1, reply_of rf1 args 0 false, noted rf ++ spawned)
        else prepend (noted rf ++ spawned) (store_entries rf1 args)
