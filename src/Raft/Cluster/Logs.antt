-- ===== src/Raft/Cluster/Logs.antt =====
-- raft-demo/src/raft: the logs of a group, and the calls that its peers make of one another.
use mathlib.Core.Option.{some-injective}
use dist_sys_demos.Base.{
  ℕ, zero, suc, ◌≤◌, ◌≡◌, refl, sym, ◌∙◌, subst, some, List, [], ◌∷◌, ◌++◌, take, drop, arith, ltb,
  ◌||◌, Bool-cases, inl, inr,
}
use dist_sys_demos.Raft.State.{Raft, AppendEntriesArgs, AppendEntriesReply, Effect, make}
use dist_sys_demos.Raft.Append.{append_entries, lacks_prev}
use dist_sys_demos.Raft.Append.Parts.{IsLogged}
use dist_sys_demos.Raft.Append.Merge.{overlay}
use dist_sys_demos.Raft.Cluster.Terms.{
  UpTo-le, UpTo-append, UpTo-take, UpTo-drop, UpTo-overlay, IsPeer, IsSent,
}
use dist_sys_demos.Raft.Append.Refused.{append_entries-guards}
use dist_sys_demos.Raft.Append.Handler.{append_entries-holds, append_entries-stores}
use dist_sys_demos.Raft.Cluster.{
  Cluster, calls_of, make_all, Reach, made, acts, calls_out, is_called,
}
use dist_sys_demos.Raft.Cluster.Sections.{Goes, same_log, Section-Goes}
use dist_sys_demos.Raft.Cluster.Calls.{
  AllCalls, AllCalls-one, AllCalls-append, MakesCalls, replicate-MakesCalls,
}

module _ {ℓ} {C : Type ℓ} where
  abbrev pub AllPeers : List (Raft C) → Type ℓ
  AllPeers [] = Unit
  AllPeers (rf ∷ peers) = IsPeer rf × AllPeers peers

  AllPeers-one :
      (before after : List (Raft C)) (rf : Raft C) → AllPeers (before ++ rf ∷ after) → IsPeer rf
  AllPeers-one [] after rf h = h.0
  AllPeers-one (x ∷ before) after rf h = AllPeers-one before after rf h.1

  AllPeers-replace :
      (before after : List (Raft C)) (rf rf1 : Raft C)
      → AllPeers (before ++ rf ∷ after)
      → IsPeer rf1
      → AllPeers (before ++ rf1 ∷ after)
  AllPeers-replace [] after rf rf1 h k = (k, h.1)
  AllPeers-replace (x ∷ before) after rf rf1 h k = (h.0, AllPeers-replace before after rf rf1 h.1 k)

  AllPeers-made : (zero_command : C) (n rounds i : ℕ) → AllPeers (make_all zero_command n rounds i)
  unfolding make
  AllPeers-made zero_command n zero i = tt
  AllPeers-made zero_command n (suc rounds) i = (
    record {
      logged = record { indexed = (refl, tt); full = omega arith };
      terms = (omega arith, tt);
    },
    AllPeers-made zero_command n rounds (suc i),
  )

  -- A call as a leader makes it is answered.
  append_entries-Goes :
      (rf : Raft C) (args : AppendEntriesArgs C)
      → IsPeer rf
      → IsSent args
      → (r : Raft C × AppendEntriesReply × List (Effect C)) × (append_entries rf args ≡ some r)
        × Goes rf r.0
  append_entries-Goes rf args h call =
      elim (Bool-cases (ltb args.term rf.current_term || lacks_prev rf.log args)) [
        | inl bad ↦
            let (r, e, refused) = append_entries-guards rf args bad in
            (r, e, same_log rf r.0 h refused.log refused.term)
        | inr good ↦
            let (r, e, stored) = append_entries-stores rf args h.logged call.call good in
            let (r1, e1, logged, same, has, laid) =
              append_entries-holds rf args h.logged call.call good in
            let one : r ≡ r1 = some-injective r r1 (sym e ∙ e1) in
            let le : rf.current_term ≤ args.term = ground arith in
            let b = suc args.prev_log_index in
            (
              r,
              e,
              record {
                peer = record {
                  logged =
                      subst (λ (x : Raft C × AppendEntriesReply × List (Effect C)). IsLogged x.0)
                        (sym one) logged;
                  terms =
                      rw (stored.log, stored.term)
                        (UpTo-append args.term (take b rf.log)
                          (overlay (drop b rf.log) args.entries)
                          (UpTo-take args.term b rf.log
                            (UpTo-le rf.current_term args.term rf.log le h.terms))
                          (UpTo-overlay args.term (drop b rf.log) args.entries
                            (UpTo-drop args.term b rf.log
                              (UpTo-le rf.current_term args.term rf.log le h.terms))
                            call.terms));
                };
                term = ground (arith, stored.term);
              },
            )
      ]

  pub record IsSound (c : Cluster C) : Type ℓ where
    pub peers : AllPeers c.peers
    pub calls : AllCalls c.calls

  Reach-IsSound : {zero_command : C} {n : ℕ} {c : Cluster C} → Reach zero_command n c → IsSound c
  Reach-IsSound {zero_command} {n} made = record {
    peers = AllPeers-made zero_command n n 0;
    calls = tt;
  }
  Reach-IsSound (acts before after calls rf rf1 r s) =
      let v = Reach-IsSound r in
      let h = AllPeers-one before after rf v.peers in
      record {
        peers = AllPeers-replace before after rf rf1 v.peers (Section-Goes rf h s).peer;
        calls = v.calls;
      }
  Reach-IsSound (calls_out before after calls rf sent r e) =
      let v = Reach-IsSound r in
      let h = AllPeers-one before after rf v.peers in
      record {
        peers = v.peers;
        calls =
            AllCalls-append (calls_of sent) calls (subst MakesCalls e (replicate-MakesCalls rf h))
              v.calls;
      }
  Reach-IsSound (is_called before after older newer rf rf1 args reply sent r e) =
      let v = Reach-IsSound r in
      let h = AllPeers-one before after rf v.peers in
      let (r1, e1, goes) = append_entries-Goes rf args h (AllCalls-one newer older args v.calls) in
      let one : r1 ≡ (rf1, reply, sent) = some-injective r1 (rf1, reply, sent) (sym e1 ∙ e) in
      record {
        peers = AllPeers-replace before after rf rf1 v.peers (
            subst (λ (x : Raft C × AppendEntriesReply × List (Effect C)). IsPeer x.0) one
              goes.peer);
        calls = v.calls;
      }

  -- In every state that a group reaches from the peers that `Make` makes, every call of
  -- `AppendEntries` that a peer has made is answered by every peer, whenever it arrives: the handler
  -- does not panic. The term does not fall, and the log that the call leaves is not empty, carries its
  -- positions, and has no entry of a later term than the peer's.
  pub Reach-append_entries :
      {zero_command : C} {n : ℕ} (before after : List (Raft C))
      (newer older : List (AppendEntriesArgs C)) (rf : Raft C) (args : AppendEntriesArgs C)
      → Reach zero_command n
          (record { peers = before ++ rf ∷ after; calls = newer ++ args ∷ older })
      → (r : Raft C × AppendEntriesReply × List (Effect C)) × (append_entries rf args ≡ some r)
        × (rf.current_term ≤ r.0.current_term)
        × IsPeer r.0
  Reach-append_entries before after newer older rf args r =
      let v = Reach-IsSound r in
      let (r1, e1, goes) =
        append_entries-Goes rf args (AllPeers-one before after rf v.peers)
          (AllCalls-one newer older args v.calls) in
      (r1, e1, goes.term, goes.peer)
