-- ===== src/Raft/Append/Refused.antt =====
-- raft-demo/src/raft/rpc.go: the calls that `AppendEntries` refuses.
use dist_sys_demos.Base.{
  append-nil, ℕ, ◌≤◌, ◌<◌, ◌≡◌, refl, ap, true, false, some, List, [], ◌++◌, arith, ltb,
  if◌then◌else◌, Bool-cases, inl, inr, ◌||◌, ◌⊎◌, Option, none, ◌==◌,
}
use dist_sys_demos.Raft.State.{
  LogEntry, Raft, AppendEntriesArgs, AppendEntriesReply, Effect, term_at,
}
use dist_sys_demos.Raft.Append.{accept_leader, lacks_prev, append_entries, noted, differs, reply_of}
use dist_sys_demos.Raft.Append.Parts.{accept_leader-same}

differs-some : (o : Option ℕ) (t : ℕ) → ¬ (o ≡ some t) → differs o t ≡ true
differs-some none t h = refl
differs-some (some s) t h = elim (Bool-cases (s == t)) [
  | inl same ↦ absurd (h (ap (λ (n : ℕ). some n) (ground arith)))
  | inr other ↦ rw other refl
]

module _ {ℓ} {C : Type ℓ} where
  -- The call is turned down: nothing but the term and the role may change, and nothing is
  -- delivered.
  pub record IsRefused (rf : Raft C) (args : AppendEntriesArgs C)
      (r : Raft C × AppendEntriesReply × List (Effect C)) : Type ℓ where
    pub log : r.0.log ≡ rf.log
    pub commit : r.0.commit_index ≡ rf.commit_index
    pub vote : r.0.voted_for ≡ rf.voted_for
    pub term : rf.current_term ≤ r.0.current_term
    pub success : r.1.success ≡ false
    pub reply_term : r.1.term ≡ r.0.current_term
    pub sent :
        r.2
        ≡ noted rf ++ (if ltb args.term rf.current_term then [] else (accept_leader rf args.term).1)

  -- The call names a preceding entry by its term, and the log has no entry of that term there.
  pub data IsMissing (log : List (LogEntry C)) (args : AppendEntriesArgs C) : Type ℓ where
    missing :
        (t : ℕ)
        → args.prev_log_term ≡ some t
        → ¬ (term_at log args.prev_log_index ≡ some t)
        → IsMissing log args

  IsMissing-lacks_prev :
      (log : List (LogEntry C)) (args : AppendEntriesArgs C)
      → IsMissing log args
      → lacks_prev log args ≡ true
  unfolding lacks_prev
  IsMissing-lacks_prev log args (missing t e h) =
      rw e (ground (arith, differs-some (term_at log args.prev_log_index) t h))

  module _ (rf : Raft C) (args : AppendEntriesArgs C) where
    pub append_entries-guards :
        (ltb args.term rf.current_term || lacks_prev rf.log args) ≡ true
        → (r : Raft C × AppendEntriesReply × List (Effect C)) × (append_entries rf args ≡ some r)
          × IsRefused rf args r
    unfolding append_entries
    append_entries-guards h = elim (Bool-cases (ltb args.term rf.current_term)) [
      | inl stale ↦ (
        (rf, reply_of rf args 0 false, noted rf),
        rw stale,
        record {
          log = refl;
          commit = refl;
          vote = refl;
          term = omega arith;
          success = refl;
          reply_term = refl;
          sent = rw (stale, append-nil (noted rf));
        },
      )
      | inr fresh ↦
          let (rf1, spawned) = accept_leader rf args.term in
          let same = accept_leader-same rf args.term (ground arith) in
          let lacks : lacks_prev rf.log args ≡ true = ground arith in
          (
            (rf1, reply_of rf1 args 0 false, noted rf ++ spawned),
            rw (fresh, same.0, lacks),
            record {
              log = same.0;
              commit = same.1;
              vote = same.4;
              term = ground arith;
              success = refl;
              reply_term = refl;
              sent = rw fresh;
            },
          )
    ]

  module _ (rf : Raft C) (args : AppendEntriesArgs C) where
    -- A call of an older term, or one that names a preceding entry by its position and term which
    -- the log does not have there, is refused: it returns with no success, and log, commit index
    -- and vote stay as they are, the term does not fall, and nothing is delivered.
    pub append_entries-refuses :
        (args.term < rf.current_term) ⊎ IsMissing rf.log args
        → (r : Raft C × AppendEntriesReply × List (Effect C)) × (append_entries rf args ≡ some r)
          × IsRefused rf args r
    append_entries-refuses (inl older) = append_entries-guards rf args (ground (arith, older))
    append_entries-refuses (inr lacks) =
        append_entries-guards rf args (ground (arith, IsMissing-lacks_prev rf.log args lacks))
