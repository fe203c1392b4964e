-- ===== src/Raft/Append/Parts.antt =====
-- raft-demo/src/raft/rpc.go: the parts of `AppendEntries`, on logs that are indexed.
use dist_sys_demos.Base.{
  drop-cons, take-append, get_elem?-append_right, ℕ, zero, suc, ◌+◌, ◌-◌, ◌≤◌, ◌<◌, ◌≡◌, refl, ap,
  ◌∙◌, true, false, some, List, ◌++◌, map, length, take, drop, get_elem?, length-append,
  length-take, min, arith, ltb, if◌then◌else◌, Bool-cases, inl, inr, subst,
}
use dist_sys_demos.Raft.State.{LogEntry, Raft, ApplyMsg, AppendEntriesArgs, term_at}
use dist_sys_demos.Raft.Log.{
  IndexedFrom, IndexedFrom-take, IndexedFrom-drop, IndexedFrom-append, last_entry-index,
}
use dist_sys_demos.Raft.Append.{
  merge_entries, apply_entries, advance_commit, accept_leader, lacks_prev, deliveries,
}
use dist_sys_demos.Raft.Append.Merge.{
  overlay, merge_entries_lem, overlay-IndexedFrom, overlay-term_at,
}

-- The commit index after a call, in a log of the given length.
abbrev pub commit_after : ℕ → ℕ → ℕ → ℕ
commit_after commit leader_commit len =
    if ltb commit leader_commit then min leader_commit (len - 1) else commit

minus_self : (n : ℕ) → n - n ≡ 0
minus_self n = omega arith

module _ {ℓ} {C : Type ℓ} where
  abbrev pub message : LogEntry C → ApplyMsg C
  message x = record { command_valid = true; command = x.command; command_index = x.index }

  -- The commands from `from` (not included) on, in the order of the log.
  apply_entries_lem :
      (log : List (LogEntry C)) (from count : ℕ)
      → count ≤ length log - 1 - from
      → apply_entries log from count ≡ some (map message (take count (drop (suc from) log)))
  unfolding apply_entries
  apply_entries_lem log from zero h = refl
  apply_entries_lem log from (suc count) h =
      let (x, e, p) = drop-cons (suc from) log (omega arith) in
      ground (arith, e, p, apply_entries_lem log (suc from) count (omega arith))

  -- The log is never empty, and its entries carry their positions.
  pub record IsLogged (rf : Raft C) : Type ℓ where
    pub indexed : IndexedFrom 0 rf.log
    pub full : 0 < length rf.log

  -- A call as a leader makes it: its entries follow on the one that it names.
  pub record IsCall (args : AppendEntriesArgs C) : Type 0 where
    pub follows : IndexedFrom (suc args.prev_log_index) args.entries
    pub prev_term : ℕ
    pub known : args.prev_log_term ≡ some prev_term

  -- What a peer delivers when its commit index moves: the entries between, in order.
  abbrev pub newly_committed : List (LogEntry C) → ℕ → ℕ → List (ApplyMsg C)
  newly_committed log old new = map message (take (new - old) (drop (suc old) log))

  pub advance_commit_lem :
      (rf : Raft C) (leader_commit : ℕ)
      → IsLogged rf
      → let new = commit_after rf.commit_index leader_commit (length rf.log) in
        advance_commit rf leader_commit
        ≡ some (
          record rf { commit_index = new },
          deliveries (newly_committed rf.log rf.commit_index new),
        )
  unfolding advance_commit
  advance_commit_lem rf lc wf = elim (Bool-cases (ltb rf.commit_index lc)) [
    | inl more ↦
        let (x, e, p) = last_entry-index 0 rf.log wf.indexed wf.full in
        rw (more, e)
          (rw
            (apply_entries_lem rf.log rf.commit_index (min lc x.index - rf.commit_index)
              (omega arith))
            (ap
              (λ (k : ℕ). some (
                record rf { commit_index = k },
                deliveries (newly_committed rf.log rf.commit_index k),
              ))
              (ap (min lc) (omega arith))))
    | inr less ↦ rw (less, minus_self rf.commit_index)
  ]

  pub term_at-cong :
      (k : List (LogEntry C)) (i : ℕ) (l : List (LogEntry C)) (j : ℕ)
      → get_elem? k i ≡ get_elem? l j
      → term_at k i ≡ term_at l j
  term_at-cong k i l j h = rw (h, term_at)

  -- What the two loops leave, for entries that begin at `b` in an indexed log.
  module _ (b : ℕ) (log es : List (LogEntry C)) (ix : IndexedFrom 0 log) (he : IndexedFrom b es)
      (pos : 0 < b) (inside : b ≤ length log) where
    pub merged : merge_entries log es ≡ take b log ++ overlay (drop b log) es
    merged = merge_entries_lem b log es he inside (omega arith)

    length-kept : length (take b log) ≡ b
    length-kept = omega (arith, length-take b log)

    pub merge-IndexedFrom : IndexedFrom 0 (merge_entries log es)
    merge-IndexedFrom = rw merged (
        IndexedFrom-append 0 (take b log) (overlay (drop b log) es) (IndexedFrom-take 0 b log ix) (
          subst (λ k. IndexedFrom k (overlay (drop b log) es)) at
            (overlay-IndexedFrom (b + 0) (drop b log) es (IndexedFrom-drop 0 b log ix)
              (subst (λ k. IndexedFrom k es) (omega arith) he))))
      where
        at : b + 0 ≡ length (take b log) + 0
        at = omega (arith, length-kept)

    pub b-le-length-merge : b ≤ length (merge_entries log es)
    b-le-length-merge =
        rw merged (omega (arith, length-kept, length-append (take b log) (overlay (drop b log) es)))

    pub take-merge : take b (merge_entries log es) ≡ take b log
    take-merge = rw merged (
        subst (λ k. take k (take b log ++ overlay (drop b log) es) ≡ take b log) length-kept
          (take-append (take b log) (overlay (drop b log) es)))

    pub merge-term_at :
        (j t : ℕ) → term_at es j ≡ some t → term_at (merge_entries log es) (b + j) ≡ some t
    merge-term_at j t h = rw merged (
        term_at-cong (take b log ++ overlay (drop b log) es) (b + j) (overlay (drop b log) es) j (
          subst
            (λ k.
              get_elem? (take b log ++ overlay (drop b log) es) (k + j)
              ≡ get_elem? (overlay (drop b log) es) j)
            length-kept (get_elem?-append_right (take b log) (overlay (drop b log) es) j))
        ∙ overlay-term_at (drop b log) es j t h)

  pub lacks_prev-false :
      (log : List (LogEntry C)) (args : AppendEntriesArgs C)
      → IsCall args
      → lacks_prev log args ≡ false
      → args.prev_log_index < length log
  unfolding lacks_prev
  lacks_prev-false log args call h = ground (arith, call.known)

  pub lacks_prev-term :
      (log : List (LogEntry C)) (args : AppendEntriesArgs C)
      → IsCall args
      → lacks_prev log args ≡ false
      → term_at log args.prev_log_index ≡ args.prev_log_term
  unfolding lacks_prev
  lacks_prev-term log args call h = ground (arith, call.known)

  pub accept_leader-same :
      (rf : Raft C) (term : ℕ)
      → rf.current_term ≤ term
      → let rf1 = (accept_leader rf term).0 in
        (rf1.log ≡ rf.log)
        × (rf1.commit_index ≡ rf.commit_index)
        × (rf1.current_term ≡ term)
        × (rf1.last_applied ≡ rf.last_applied)
        × (rf1.voted_for ≡ rf.voted_for)
  unfolding accept_leader
  accept_leader-same rf term h = ground arith
