-- ===== src/Raft/Leader/Failures.antt =====
-- raft-demo/src/raft/raft.go: failed replies, as `handleReply` and `replicate` treat them.
use dist_sys_demos.Base.{
  ◌∙◌, if◌then◌else◌, ap, dec_lt, ℕ, zero, suc, ◌+◌, ◌-◌, ◌≤◌, ◌<◌, ◌≡◌, ◌≢◌, Bool, true, false,
  none, some, List, [], length, get_elem?, set, arith, get_elem?-some, get_elem?-set_self,
  get_elem?-lt,
}
use dist_sys_demos.Base.Int.{pos, ◌-ℤ◌}
use dist_sys_demos.Raft.State.{is_leader, leader, Raft, Effect, AppendEntriesReply}
use dist_sys_demos.Raft.Append.Parts.{IsLogged}
use dist_sys_demos.Raft.Leader.{missing_args, peer_args, replicate_from, replicate, handle_reply}

module _ {ℓ} {C : Type ℓ} where
  -- A next index below 1 makes `replicate` read the log at -1.
  peer_args-none : (rf : Raft C) → IsLogged rf → peer_args rf (pos 0) ≡ none
  unfolding peer_args missing_args
  peer_args-none rf wf =
      let (x, e) = get_elem?-some rf.log (length rf.log - 1) (omega (arith, wf.full)) in
      ground (arith, e)

  -- While one peer's next index is below 1, `replicate` reads the log out of range.
  replicate_from-none :
      (rounds start si : ℕ) (rf : Raft C)
      → IsLogged rf
      → si ≢ rf.me
      → get_elem? rf.next_index si ≡ some (pos 0)
      → start ≤ si
      → si < start + rounds
      → replicate_from rounds start rf ≡ none
  unfolding replicate_from
  replicate_from-none zero start si rf wf other next lo hi = absurd (omega arith)
  replicate_from-none (suc rounds) start si rf wf other next lo hi = elim (dec_lt start si) [
    | yes later ↦
        ground
          (arith, replicate_from-none rounds (suc start) si rf wf other next later (omega arith))
    | no now ↦
        let here : start ≡ si = omega arith in rw here (ground (arith, next, peer_args-none rf wf))
  ]

  replicate-leader :
      (rf : Raft C) → rf.state ≡ leader → replicate rf ≡ replicate_from rf.num_peers 0 rf
  unfolding replicate
  replicate-leader rf lead =
      ap (λ s. if is_leader s then replicate_from rf.num_peers 0 rf else some []) lead

  -- A failed reply of no larger term from another peer whose next index is 1 takes the index to 0,
  -- with no check, and the next `replicate` of the leader, whose log carries its positions, panics.
  pub handle_reply-replicate :
      (rf : Raft C) (reply : AppendEntriesReply)
      → IsLogged rf
      → rf.state ≡ leader
      → reply.term ≤ rf.current_term
      → reply.success ≡ false
      → reply.follower_id < rf.num_peers
      → reply.follower_id ≢ rf.me
      → get_elem? rf.next_index reply.follower_id ≡ some (pos 1)
      → (r : Raft C × List (Effect C) × Bool) × (handle_reply rf reply ≡ some r)
        × (replicate r.0 ≡ none)
  unfolding handle_reply ◌-ℤ◌
  handle_reply-replicate rf reply wf lead term failed inside other next =
      let rf1 = record rf { next_index = set rf.next_index reply.follower_id (pos 0) } in
      (
        (rf1, [], true),
        ground (arith, next),
        replicate-leader rf1 lead
            ∙ (replicate_from-none rf.num_peers 0 reply.follower_id rf1
                (record { indexed = wf.indexed; full = wf.full }) other
                (get_elem?-set_self rf.next_index reply.follower_id (pos 0)
                  (get_elem?-lt rf.next_index reply.follower_id (pos 1) next))
                (omega arith) (omega arith)),
      )
