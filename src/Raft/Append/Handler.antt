-- ===== src/Raft/Append/Handler.antt =====
-- raft-demo/src/raft/rpc.go: what `AppendEntries` does with the calls that it carries out.
use dist_sys_demos.Base.{
  ℕ, suc, ◌+◌, ◌-◌, ◌<◌, ◌≡◌, refl, sym, ap, ◌∙◌, true, false, some, List, ◌++◌, length, take, drop,
  arith, ltb, ◌||◌, map, subst, length-take, drop-append,
}
use dist_sys_demos.Raft.State.{
  LogEntry, Raft, AppendEntriesArgs, AppendEntriesReply, Effect, term_at,
}
use dist_sys_demos.Raft.Append.{
  merge_entries, accept_leader, lacks_prev, append_entries, store_entries, deliveries, noted,
  reply_of,
}
use dist_sys_demos.Raft.Append.Merge.{overlay, overlay-terms}
use dist_sys_demos.Raft.Append.Parts.{
  IsLogged, IsCall, commit_after, newly_committed, advance_commit_lem, merge-IndexedFrom,
  b-le-length-merge, take-merge, merge-term_at, lacks_prev-false, accept_leader-same, merged,
}

module _ {ℓ} {C : Type ℓ} where
  -- The call is carried out: the entries are laid over the log behind the one that the call
  -- names, and the entries that become committed are delivered.
  pub record IsStored (rf : Raft C) (args : AppendEntriesArgs C)
      (r : Raft C × AppendEntriesReply × List (Effect C)) : Type ℓ where
    pub log :
        let b = suc args.prev_log_index in
        r.0.log ≡ take b rf.log ++ overlay (drop b rf.log) args.entries
    pub commit : r.0.commit_index ≡ commit_after rf.commit_index args.leader_commit (length r.0.log)
    pub applied : r.0.last_applied ≡ rf.last_applied
    pub vote : r.0.voted_for ≡ rf.voted_for
    pub term : r.0.current_term ≡ args.term
    pub success : r.1.success ≡ true
    pub reply_term : r.1.term ≡ args.term
    pub last : r.1.last_log_index ≡ length r.0.log - 1
    pub sent :
        r.2
        ≡ (noted rf ++ (accept_leader rf args.term).1)
          ++ deliveries (newly_committed r.0.log rf.commit_index r.0.commit_index)

  merge-IsLogged :
      (rf : Raft C) (args : AppendEntriesArgs C)
      → IsLogged rf
      → IsCall args
      → args.prev_log_index < length rf.log
      → IsLogged (record rf { log = merge_entries rf.log args.entries })
  merge-IsLogged rf args wf call inside = record {
    indexed = merge-IndexedFrom b rf.log args.entries wf.indexed call.follows (omega arith) inside;
    full = omega (
      arith,
      b-le-length-merge b rf.log args.entries wf.indexed call.follows (omega arith) inside,
    );
  }
    where
      b : ℕ
      b = suc args.prev_log_index

  store_entries_lem :
      (rf : Raft C) (args : AppendEntriesArgs C)
      → IsLogged rf
      → IsCall args
      → args.prev_log_index < length rf.log
      → let log = merge_entries rf.log args.entries in
        let new = commit_after rf.commit_index args.leader_commit (length log) in
        let rf' = record rf { log = log; commit_index = new } in
        store_entries rf args
        ≡ some (
          rf',
          reply_of rf' args (length log - 1) true,
          deliveries (newly_committed log rf.commit_index new),
        )
  unfolding store_entries
  store_entries_lem rf args wf call inside = rw (
    advance_commit_lem (record rf { log = merge_entries rf.log args.entries }) args.leader_commit
        (merge-IsLogged rf args wf call inside),
    store_entries,
  )

  module _ (rf : Raft C) (args : AppendEntriesArgs C) (wf : IsLogged rf) (call : IsCall args) where
    -- For a peer whose log carries its positions and a call made as a leader makes it: a call that
    -- is neither of an older term nor lacks its preceding entry in the log returns, and lays its
    -- entries over the log behind that entry; the commit index and the messages follow the
    -- leader's commit index up to the end of the log, and `lastApplied` does not move.
    pub append_entries-stores :
        (ltb args.term rf.current_term || lacks_prev rf.log args) ≡ false
        → (r : Raft C × AppendEntriesReply × List (Effect C)) × (append_entries rf args ≡ some r)
          × IsStored rf args r
    unfolding append_entries
    append_entries-stores h =
        let (rf1, spawned) = accept_leader rf args.term in
        let fresh : ltb args.term rf.current_term ≡ false = ground arith in
        let same = accept_leader-same rf args.term (ground arith) in
        let found : lacks_prev rf.log args ≡ false = ground arith in
        let inside = lacks_prev-false rf.log args call found in
        let wf1 : IsLogged rf1 = record {
          indexed = rw same.0 wf.indexed;
          full = rw same.0 wf.full;
        } in
        let found1 : lacks_prev rf1.log args ≡ false = ap (λ l. lacks_prev l args) same.0 ∙ found in
        let log1 = merge_entries rf1.log args.entries in
        let new = commit_after rf1.commit_index args.leader_commit (length log1) in
        let rf2 = record rf1 { log = log1; commit_index = new } in
        let stored = store_entries_lem rf1 args wf1 call (rw same.0 inside) in
        (
          (
            rf2,
            reply_of rf2 args (length log1 - 1) true,
            (noted rf ++ spawned) ++ deliveries (newly_committed log1 rf1.commit_index new),
          ),
          rw (fresh, found1, stored),
          record {
            log =
                ap (λ l. merge_entries l args.entries) same.0
                ∙ merged (suc args.prev_log_index) rf.log args.entries wf.indexed call.follows
                    (omega arith) inside;
            commit = ap (λ c. commit_after c args.leader_commit (length log1)) same.1;
            applied = same.3;
            vote = same.4;
            term = same.2;
            success = refl;
            reply_term = same.2;
            last = refl;
            sent =
                ap (λ c. (noted rf ++ spawned) ++ deliveries (newly_committed log1 c new)) same.1;
          },
        )

    pub append_entries-holds :
        (ltb args.term rf.current_term || lacks_prev rf.log args) ≡ false
        → (r : Raft C × AppendEntriesReply × List (Effect C)) × (append_entries rf args ≡ some r)
          × IsLogged r.0
          × (take (suc args.prev_log_index) r.0.log ≡ take (suc args.prev_log_index) rf.log)
          × ((j t : ℕ)
              → term_at args.entries j ≡ some t
              → term_at r.0.log (suc args.prev_log_index + j) ≡ some t)
          × (let b = suc args.prev_log_index in
              r.0.log ≡ take b rf.log ++ overlay (drop b rf.log) args.entries)
    append_entries-holds h =
        let (r, e, stored) = append_entries-stores h in
        let same : r.0.log ≡ merge_entries rf.log args.entries =
          stored.log
          ∙ sym (merged b rf.log args.entries wf.indexed call.follows (omega arith) inside) in
        (
          r,
          e,
          record {
            indexed = rw same (merge-IsLogged rf args wf call inside).indexed;
            full = rw same (merge-IsLogged rf args wf call inside).full;
          },
          rw same (take-merge b rf.log args.entries wf.indexed call.follows (omega arith) inside),
          λ j t m. rw same (
              merge-term_at b rf.log args.entries wf.indexed call.follows (omega arith) inside j t
                m),
          stored.log,
        )
      where
        b : ℕ
        b = suc args.prev_log_index

        inside : args.prev_log_index < length rf.log
        inside = lacks_prev-false rf.log args call (ground arith)

    -- For a peer whose log carries its positions and a call made as a leader makes it, with entries or
    -- without: a call that is not refused returns, and then the log still carries its positions, is
    -- unchanged up to the entry that the call names, and has behind it the terms of the call's
    -- entries, in their order.
    pub append_entries-agrees :
        (ltb args.term rf.current_term || lacks_prev rf.log args) ≡ false
        → let b = suc args.prev_log_index in
          (r : Raft C × AppendEntriesReply × List (Effect C)) × (append_entries rf args ≡ some r)
          × IsLogged r.0
          × (take b r.0.log ≡ take b rf.log)
          × (map (λ (x : LogEntry C). x.term) (take (length args.entries) (drop b r.0.log))
              ≡ map (λ (x : LogEntry C). x.term) args.entries)
    append_entries-agrees h =
        let (r, run, ok, same, at, laid) = append_entries-holds h in
        (
          r,
          run,
          ok,
          same,
          rw laid (
              subst
                (λ n.
                  map (λ (x : LogEntry C). x.term)
                    (take (length args.entries)
                      (drop n (take b rf.log ++ overlay (drop b rf.log) args.entries)))
                  ≡ map (λ (x : LogEntry C). x.term) args.entries)
                counted
                (rw (drop-append (take b rf.log) (overlay (drop b rf.log) args.entries))
                  (overlay-terms (drop b rf.log) args.entries))),
        )
      where
        b : ℕ
        b = suc args.prev_log_index

        counted : length (take b rf.log) ≡ b
        counted =
            length-take b rf.log ∙ omega (arith, lacks_prev-false rf.log args call (ground arith))
