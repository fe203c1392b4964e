-- ===== src/Raft/Leader/Commit.antt =====
-- raft-demo/src/raft/raft.go: `commitAt` and the messages that it delivers.
use dist_sys_demos.Base.{
  ◌⊎◌, subst, ℕ, zero, suc, ◌+◌, ◌-◌, ◌/◌, ◌≤◌, ◌<◌, ◌≡◌, refl, ap, ◌∙◌, Bool, true, false, ◌&&◌,
  none, some, List, [], ◌∷◌, map, length, take, drop, get_elem?, arith, ltb, leb, ◌==◌, drop-cons,
  get_elem?-some, if◌then◌else◌, Bool-cases, inl, inr,
}
use dist_sys_demos.Raft.State.{LogEntry, Raft, Effect, term_at}
use dist_sys_demos.Raft.Append.{deliveries}
use dist_sys_demos.Raft.Append.Parts.{message, newly_committed}
use dist_sys_demos.Raft.Leader.{count_matches, apply_rest, commit_at}

-- The peers other than `me`, from number `si` on, whose match index has reached `index`.
abbrev pub reached : ℕ → ℕ → ℕ → List ℕ → ℕ
reached me index si [] = 0
reached me index si (m ∷ ms) =
    let rest = reached me index (suc si) ms in
    if si == me then rest else if leb index m then suc rest else rest

leb-false : (a b : ℕ) → b < a → leb a b ≡ false
leb-false a b h = ground arith

minus_self : (n : ℕ) → n - n ≡ 0
minus_self n = omega arith

plus_suc : (n m : ℕ) → n + suc m ≡ suc n + m
plus_suc n m = omega arith

drop-length {ℓ} : {A : Type ℓ} (l : List A) (n : ℕ) → n ≡ length l → drop n l ≡ []
drop-length [] zero h = refl
drop-length [] (suc n) h = refl
drop-length (x ∷ l) zero h = absurd (omega arith)
drop-length (x ∷ l) (suc n) h = drop-length l n (omega arith)

module _ {ℓ} {C : Type ℓ} where
  -- More than half of the peers hold the entry at `index`, the leader included.
  abbrev pub majority_holds : Raft C → ℕ → Bool
  majority_holds rf index = ltb (rf.num_peers / 2) (suc (reached rf.me index 0 rf.match_index))

  count_matches_lem :
      (rounds si index : ℕ) (rf : Raft C)
      → si + rounds ≡ length rf.match_index
      → count_matches rounds si index rf ≡ some (reached rf.me index si (drop si rf.match_index))
  unfolding count_matches
  count_matches_lem zero si index rf h = rw (drop-length rf.match_index si (omega arith))
  count_matches_lem (suc rounds) si index rf h =
      let (m, e, p) = drop-cons si rf.match_index (omega arith) in
      ground (arith, e, p, count_matches_lem rounds (suc si) index rf (omega arith))

  apply_rest-zero :
      (rf : Raft C) → apply_rest 0 rf ≡ some (record rf { last_applied = rf.last_applied + 0 }, [])
  unfolding apply_rest
  apply_rest-zero rf = ap (λ (k : ℕ). some (record rf { last_applied = k }, [])) (omega arith)

  apply_rest-step :
      (rounds : ℕ) (rf : Raft C) (x : LogEntry C) (rest : List (LogEntry C))
      → get_elem? rf.log (suc rf.last_applied) ≡ some x
      → drop (suc rf.last_applied) rf.log ≡ x ∷ rest
      → let rf1 = record rf { last_applied = suc rf.last_applied } in
        apply_rest rounds rf1
          ≡ some (
            record rf { last_applied = suc rf.last_applied + rounds },
            deliveries (map message (take rounds rest)),
          )
        → apply_rest (suc rounds) rf
          ≡ some (
            record rf { last_applied = rf.last_applied + suc rounds },
            deliveries (map message (take (suc rounds) (drop (suc rf.last_applied) rf.log))),
          )
  unfolding apply_rest
  apply_rest-step rounds rf x rest e p ih =
      ground (arith, e, p, ih, plus_suc rf.last_applied rounds)

  apply_rest_lem :
      (rounds : ℕ) (rf : Raft C)
      → rounds ≤ length rf.log - 1 - rf.last_applied
      → apply_rest rounds rf
        ≡ some (
          record rf { last_applied = rf.last_applied + rounds },
          deliveries (map message (take rounds (drop (suc rf.last_applied) rf.log))),
        )
  apply_rest_lem zero rf h = apply_rest-zero rf
  apply_rest_lem (suc rounds) rf h =
      let (x, e, p) = drop-cons (suc rf.last_applied) rf.log (omega arith) in
      apply_rest-step rounds rf x (drop (suc (suc rf.last_applied)) rf.log) e p
        (apply_rest_lem rounds (record rf { last_applied = suc rf.last_applied }) (omega arith))

  -- The leader's tables and its commit index are in range.
  pub record IsLeading (rf : Raft C) : Type 0 where
    pub peers : length rf.match_index ≡ rf.num_peers
    pub commit : rf.commit_index < length rf.log
    pub applied : rf.last_applied ≤ rf.commit_index

  -- The commit index after `commitAt index`.
  abbrev pub commits_at : Raft C → ℕ → ℕ
  commits_at rf index = elim (term_at rf.log index) [
    | none ↦ rf.commit_index
    | some t ↦ if majority_holds rf index && t == rf.current_term then index else rf.commit_index
  ]

  pub commits_at-lt :
      (rf : Raft C) (index : ℕ)
      → index < length rf.log
      → rf.commit_index < length rf.log
      → rf.commit_index < index
      → (commits_at rf index < length rf.log) × (rf.commit_index ≤ commits_at rf index)
  commits_at-lt rf index h c l = ground arith

  commit_at-step :
      (rf : Raft C) (index : ℕ) (x : LogEntry C)
      → get_elem? rf.log index ≡ some x
      → (new : ℕ)
      → (if majority_holds rf index && x.term == rf.current_term then index else rf.commit_index)
        ≡ new
      → count_matches rf.num_peers 0 index rf ≡ some (reached rf.me index 0 rf.match_index)
      → rf.commit_index < index
      → IsLeading rf
      → (new < length rf.log) × (rf.commit_index ≤ new)
      → commit_at rf index
        ≡ some (
          record rf { commit_index = new; last_applied = new },
          deliveries (newly_committed rf.log rf.last_applied new),
        )
  unfolding commit_at
  commit_at-step rf index x e new at count above wf bounds =
      rw (leb-false index rf.commit_index above, e, count, at)
        (apply_rest_lem (new - rf.last_applied) (record rf { commit_index = new }) (omega arith)
          ∙ ap
              (λ (k : ℕ). some (
                record rf { commit_index = new; last_applied = k },
                deliveries (newly_committed rf.log rf.last_applied new),
              ))
              (omega (arith, wf.applied)))

  pub commit_at_lem :
      (rf : Raft C) (index : ℕ)
      → IsLeading rf
      → rf.commit_index < index
      → index < length rf.log
      → let new = commits_at rf index in
        commit_at rf index
        ≡ some (
          record rf { commit_index = new; last_applied = new },
          deliveries (newly_committed rf.log rf.last_applied new),
        )
  commit_at_lem rf index wf above inside = go (get_elem?-some rf.log index inside)
    where
      go :
          (x : LogEntry C) × (get_elem? rf.log index ≡ some x)
          → let new = commits_at rf index in
            commit_at rf index
            ≡ some (
              record rf { commit_index = new; last_applied = new },
              deliveries (newly_committed rf.log rf.last_applied new),
            )
      go (x, e) =
          commit_at-step rf index x e (commits_at rf index) (ground (arith, e))
            (subst (λ n. count_matches n 0 index rf ≡ some (reached rf.me index 0 rf.match_index))
              wf.peers (count_matches_lem (length rf.match_index) 0 index rf (omega arith)))
            above wf (commits_at-lt rf index inside wf.commit above)

  pub commit_at-old :
      (rf : Raft C) (index : ℕ)
      → leb index rf.commit_index ≡ true
      → commit_at rf index ≡ some (rf, [])
  unfolding commit_at
  commit_at-old rf index old = rw old

  commits_at-moved :
      (rf : Raft C) (index : ℕ)
      → (commits_at rf index ≡ rf.commit_index)
        ⊎ ((commits_at rf index ≡ index)
            × (majority_holds rf index ≡ true)
            × (term_at rf.log index ≡ some rf.current_term))
  commits_at-moved rf index = ground arith

  -- Where the match table has an entry for each peer, the commit index is inside the log and not
  -- below `lastApplied`, and the given index is inside the log, `commitAt` returns. The commit
  -- index moves only to the given index, if most peers hold the entry and it is of the current
  -- term, and never back. The log stays. The entries behind `lastApplied` up to its new value are
  -- delivered in the order of the log; if there are any, that value is the commit index.
  pub commit_at-majority :
      (rf : Raft C) (index : ℕ)
      → IsLeading rf
      → index < length rf.log
      → (r : Raft C × List (Effect C)) × (commit_at rf index ≡ some r)
        × (rf.commit_index ≤ r.0.commit_index)
        × ((r.0.commit_index ≡ rf.commit_index)
            ⊎ ((r.0.commit_index ≡ index)
                × (majority_holds rf index ≡ true)
                × (term_at rf.log index ≡ some rf.current_term)))
        × (r.0.log ≡ rf.log)
        × ((r.1 ≡ []) ⊎ (r.0.last_applied ≡ r.0.commit_index))
        × (r.1 ≡ deliveries (newly_committed rf.log rf.last_applied r.0.last_applied))
  commit_at-majority rf index wf inside = elim (Bool-cases (leb index rf.commit_index)) [
    | inl old ↦ (
      (rf, []),
      commit_at-old rf index old,
      omega arith,
      inl refl,
      refl,
      inl refl,
      rw (minus_self rf.last_applied),
    )
    | inr new ↦
        let at = commits_at rf index in
        (
          (
            record rf { commit_index = at; last_applied = at },
            deliveries (newly_committed rf.log rf.last_applied at),
          ),
          commit_at_lem rf index wf (ground arith) inside,
          (commits_at-lt rf index inside wf.commit (ground arith)).1,
          commits_at-moved rf index,
          refl,
          inr refl,
          refl,
        )
  ]
