-- ===== src/Raft/Leader/Bounds.antt =====
-- raft-demo/src/raft/raft.go: a leader does not read its tables or its log out of range.
use mathlib.Core.Option.{some-injective}
use dist_sys_demos.Base.{
  ℕ, zero, suc, ◌+◌, ◌≤◌, ◌<◌, ◌≡◌, refl, sym, ap, ◌∙◌, subst, Bool, false, none, ltb, leb, ◌⊎◌,
  get_elem?, get_elem?-none, some, List, [], ◌∷◌, length, get_elem?-some, arith, ◌==◌, Bool-cases,
  inl, inr,
}
use dist_sys_demos.Raft.State.{Raft, Effect, AppendEntriesReply, is_leader, send_append_entries}
use dist_sys_demos.Raft.Append.Parts.{IsLogged}
use dist_sys_demos.Raft.Leader.{
  start, to_leader, replicate_from, replicate, commit_at, handle_reply,
}
use dist_sys_demos.Raft.Leader.Commit.{commit_at-majority}
use dist_sys_demos.Raft.Leader.Replicate.{peer_args-Describes}
use dist_sys_demos.Raft.Leader.Tables.{
  HasTables, IsReply, to_leader-HasTables, start-HasTables, commit_at-HasTables, handle_reply-some,
}

module _ {ℓ} {C : Type ℓ} where
  replicate_from-some :
      (rounds si : ℕ) (rf : Raft C)
      → HasTables rf
      → si + rounds ≡ rf.num_peers
      → (sent : List (Effect C)) × (replicate_from rounds si rf ≡ some sent)
  unfolding replicate_from
  replicate_from-some zero si rf v h = ([], refl)
  replicate_from-some (suc rounds) si rf v h =
      let (sent, e) = replicate_from-some rounds (suc si) rf v (omega arith) in
      elim (Bool-cases (si == rf.me)) [
        | inl self ↦ (sent, rw self e)
        | inr other ↦
            let (next, at) = get_elem?-some rf.next_index si (omega (arith, v.nexts)) in
            let (n, p) = v.next_in si next (ground arith) at in
            let (args, made, _) = peer_args-Describes rf n v.logged in
            (send_append_entries si args ∷ sent, rw (other, at, p, made, e) refl)
      ]

  replicate-some :
      (rf : Raft C) → HasTables rf → (sent : List (Effect C)) × (replicate rf ≡ some sent)
  unfolding replicate
  replicate-some rf v = elim (Bool-cases (is_leader rf.state)) [
    | inl leads ↦
        let (sent, e) = replicate_from-some rf.num_peers 0 rf v (omega arith) in (sent, rw leads e)
    | inr other ↦ ([], rw other refl)
  ]

  commit_at-some :
      (rf : Raft C) (index : ℕ)
      → HasTables rf
      → index < length rf.log
      → (r : Raft C × List (Effect C)) × (commit_at rf index ≡ some r)
  commit_at-some rf index v inside =
      let found = commit_at-majority rf index v.leading inside in (found.0, found.1)

  -- A call of `commitAt` returns at every index of the log, and panics at every index behind it.
  commit_at-cases :
      (rf : Raft C) (index : ℕ)
      → HasTables rf
      → ((index < length rf.log) × (r : Raft C × List (Effect C)) × (commit_at rf index ≡ some r))
        ⊎ ((length rf.log ≤ index) × (commit_at rf index ≡ none))
  unfolding commit_at
  commit_at-cases rf index v = elim (Bool-cases (ltb index (length rf.log))) [
    | inl inside ↦
        let (r, run) = commit_at-some rf index v (ground arith) in inl (ground arith, r, run)
    | inr behind ↦
        let above : leb index rf.commit_index ≡ false = ground (arith, v.leading.commit) in
        let nothing : get_elem? rf.log index ≡ none = get_elem?-none rf.log index (ground arith) in
        inr (ground arith, rw (above, nothing, commit_at) refl)
  ]

  commit_at-inside :
      (rf : Raft C) (index : ℕ) (r : Raft C × List (Effect C))
      → HasTables rf
      → commit_at rf index ≡ some r
      → index < length rf.log
  commit_at-inside rf index r v e = elim (commit_at-cases rf index v) [
    | inl (inside, _, _) ↦ inside
    | inr (_, panic) ↦ absurd (ground (arith, e, panic))
  ]

  -- A leader from `toLeader` on: commands, replies of other peers, and the calls of `commitAt` that
  -- return, in any order.
  pub data Leads (rf0 : Raft C) : Raft C → Type ℓ where
    elected : Leads rf0 (to_leader rf0)
    starts : (rf : Raft C) (command : C) → Leads rf0 rf → Leads rf0 (start rf command).0
    replies :
        (rf rf1 : Raft C) (reply : AppendEntriesReply) (sent : List (Effect C)) (on : Bool)
        → Leads rf0 rf
        → IsReply rf reply
        → handle_reply rf reply ≡ some (rf1, sent, on)
        → Leads rf0 rf1
    commits :
        (rf rf1 : Raft C) (index : ℕ) (sent : List (Effect C))
        → Leads rf0 rf
        → commit_at rf index ≡ some (rf1, sent)
        → Leads rf0 rf1

  module _ (rf0 : Raft C) (wf : IsLogged rf0) (inside : rf0.commit_index < length rf0.log)
      (applied : rf0.last_applied ≤ rf0.commit_index) where
    Leads-HasTables : {rf : Raft C} → Leads rf0 rf → HasTables rf
    Leads-HasTables elected = to_leader-HasTables rf0 wf inside applied
    Leads-HasTables (starts rf command r) = start-HasTables rf command (Leads-HasTables r)
    Leads-HasTables (replies rf rf1 reply sent on r possible e) =
        let (q, run, keeps) = handle_reply-some rf reply (Leads-HasTables r) possible.0 in
        subst HasTables
          (ap (λ (x : Raft C × List (Effect C) × Bool). x.0) (some-injective _ _ (sym run ∙ e)))
          (keeps possible)
    Leads-HasTables (commits rf rf1 index sent r e) =
        let v = Leads-HasTables r in
        commit_at-HasTables rf rf1 index sent v (commit_at-inside rf index (rf1, sent) v e) e

    -- A peer whose log carries its positions, with its commit index inside the log and not below
    -- `lastApplied`, becomes a leader. As long as no failed reply meets a next index of 1, `nextIndex`
    -- and `matchIndex` are never read out of range, and neither is the log but by `commitAt`: the
    -- leader's next `replicate` returns, and so does `handleReply` for a reply of every peer.
    -- `commitAt` returns at every index of the log and panics at every index behind it, and the
    -- commit index stays inside the log.
    pub Leads-bounds :
        {rf : Raft C}
        → Leads rf0 rf
        → ((sent : List (Effect C)) × (replicate rf ≡ some sent))
          × ((index : ℕ)
              → ((index < length rf.log)
                  × (r : Raft C × List (Effect C)) × (commit_at rf index ≡ some r))
                ⊎ ((length rf.log ≤ index) × (commit_at rf index ≡ none)))
          × ((reply : AppendEntriesReply)
              → reply.follower_id < rf.num_peers
              → (r : Raft C × List (Effect C) × Bool) × (handle_reply rf reply ≡ some r))
          × (rf.commit_index < length rf.log)
    Leads-bounds {rf} r =
        let v = Leads-HasTables r in
        (
          replicate-some rf v,
          λ index. commit_at-cases rf index v,
          λ reply h. let (q, run, _) = handle_reply-some rf reply v h in (q, run),
          v.leading.commit,
        )
