-- ===== src/Raft/Cluster/Calls.antt =====
-- raft-demo/src/raft/raft.go: the calls of `AppendEntries` that `replicate` makes.
use dist_sys_demos.Base.{
  ℕ, zero, suc, ◌-◌, refl, Option, none, some, List, [], ◌∷◌, ◌++◌, length, ◌==◌, Bool-cases,
  Option-cases, inl, inr, get_elem?,
}
use dist_sys_demos.Base.Int.{ℤ, pos, negsuc}
use dist_sys_demos.Raft.State.{Raft, AppendEntriesArgs, Effect, send_append_entries, is_leader}
use dist_sys_demos.Raft.Cluster.Terms.{UpTo-drop, IsPeer, IsSent}
use dist_sys_demos.Raft.Leader.{replicate, replicate_from, peer_args, missing_args, is_behind}
use dist_sys_demos.Raft.Leader.Replicate.{describes}
use dist_sys_demos.Raft.Cluster.{calls_of}

module _ {ℓ} {C : Type ℓ} where
  abbrev pub AllCalls : List (AppendEntriesArgs C) → Type ℓ
  AllCalls [] = Unit
  AllCalls (args ∷ calls) = IsSent args × AllCalls calls

  pub AllCalls-one :
      (newer older : List (AppendEntriesArgs C)) (args : AppendEntriesArgs C)
      → AllCalls (newer ++ args ∷ older)
      → IsSent args
  AllCalls-one [] older args h = h.0
  AllCalls-one (x ∷ newer) older args h = AllCalls-one newer older args h.1

  pub AllCalls-append :
      (newer older : List (AppendEntriesArgs C))
      → AllCalls newer
      → AllCalls older
      → AllCalls (newer ++ older)
  AllCalls-append [] older h k = k
  AllCalls-append (x ∷ newer) older h k = (h.0, AllCalls-append newer older h.1 k)

  -- The call of one peer, if there is one.
  abbrev MakesCall : Option (AppendEntriesArgs C) → Type ℓ
  MakesCall none = Unit
  MakesCall (some args) = IsSent args

  abbrev pub MakesCalls : Option (List (Effect C)) → Type ℓ
  MakesCalls none = Unit
  MakesCalls (some sent) = AllCalls (calls_of sent)

  missing_args-MakesCall : (rf : Raft C) (next : ℤ) → IsPeer rf → MakesCall (missing_args rf next)
  unfolding missing_args
  missing_args-MakesCall rf (pos zero) h = tt
  missing_args-MakesCall rf (negsuc n) h = tt
  missing_args-MakesCall rf (pos (suc prev)) h = elim (Option-cases (get_elem? rf.log prev)) [
    | inl outside ↦ rw (outside, MakesCall) tt
    | inr (x, here) ↦
        rw (here, MakesCall)
          (record {
            call = (describes rf prev x h.logged here).call;
            terms = UpTo-drop rf.current_term (suc prev) rf.log h.terms;
          })
  ]

  peer_args-MakesCall : (rf : Raft C) (next : ℤ) → IsPeer rf → MakesCall (peer_args rf next)
  unfolding peer_args
  peer_args-MakesCall rf next h = elim (Option-cases (get_elem? rf.log (length rf.log - 1))) [
    | inl outside ↦ rw (outside, MakesCall) tt
    | inr (x, here) ↦ elim (Bool-cases (is_behind (length rf.log) next)) [
      | inl behind ↦ rw (here, behind, MakesCall) (missing_args-MakesCall rf next h)
      | inr level ↦
          rw (here, level, MakesCall)
            (record {
              call = record { follows = tt; prev_term = x.term; known = refl };
              terms = tt;
            })
    ]
  ]

  replicate_from-MakesCalls :
      (rounds si : ℕ) (rf : Raft C) → IsPeer rf → MakesCalls (replicate_from rounds si rf)
  unfolding replicate_from
  replicate_from-MakesCalls zero si rf h = tt
  replicate_from-MakesCalls (suc rounds) si rf h =
      let ih = replicate_from-MakesCalls rounds (suc si) rf h in
      elim (Bool-cases (si == rf.me)) [
        | inl me ↦ rw me ih
        | inr other ↦ elim (Option-cases (get_elem? rf.next_index si)) [
          | inl outside ↦ rw (other, outside) tt
          | inr (next, here) ↦
              rw (other, here)
                (both (peer_args rf next) (replicate_from rounds (suc si) rf)
                  (peer_args-MakesCall rf next h) ih)
        ]
      ]
    where
      both :
          (a : Option (AppendEntriesArgs C)) (r : Option (List (Effect C)))
          → MakesCall a
          → MakesCalls r
          → MakesCalls (elim a [
            | none ↦ none
            | some args ↦ elim r [
              | none ↦ none
              | some sent ↦ some (send_append_entries si args ∷ sent)
            ]
          ])
      both none r k ih = tt
      both (some args) none k ih = tt
      both (some args) (some sent) k ih = (k, ih)

  pub replicate-MakesCalls : (rf : Raft C) → IsPeer rf → MakesCalls (replicate rf)
  unfolding replicate
  replicate-MakesCalls rf h = elim (Bool-cases (is_leader rf.state)) [
    | inl leading ↦ rw leading (replicate_from-MakesCalls rf.num_peers 0 rf h)
    | inr other ↦ rw other tt
  ]
