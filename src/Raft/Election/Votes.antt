-- ===== src/Raft/Election/Votes.antt =====
-- raft-demo/src/raft/rpc.go: whom `RequestVote` votes for.
use dist_sys_demos.Base.{
  ℕ, ◌≤◌, ◌<◌, ◌-◌, length, ◌≡◌, ◌↔◌, refl, ap, ◌∙◌, true, Option, none, Option-cases, some, List,
  [], ◌∷◌, arith, ltb, if◌then◌else◌, Bool-cases, ◌⊎◌, inl, inr,
}
use dist_sys_demos.Raft.State.{LogEntry, last_entry, Raft, RequestVoteArgs}
use dist_sys_demos.Raft.Election.{
  can_vote_for, is_cand_up_to_date, adopt_term, cast_vote, request_vote,
}

abbrev pub AllAre : ℕ → List ℕ → Type 0
AllAre v [] = Unit
AllAre v (c ∷ cs) = (c ≡ v) × AllAre v cs

can_vote_for-some : (o : Option ℕ) (c v : ℕ) → o ≡ some v → can_vote_for o c ≡ true → c ≡ v
can_vote_for-some o c v h can = ground arith

free_from : (o : Option ℕ) (c : ℕ) → can_vote_for o c ≡ true → (o ≡ none) ⊎ (o ≡ some c)
free_from none c h = inl refl
free_from (some v) c h = inr (ap (λ (n : ℕ). some n) (ground arith))

free_to : (o : Option ℕ) (c : ℕ) → (o ≡ none) ⊎ (o ≡ some c) → can_vote_for o c ≡ true
free_to o c (inl e) = rw e refl
free_to o c (inr e) = rw e (ground arith)

module _ {ℓ} {C : Type ℓ} where
  -- The candidate's log against the peer's: its last entry has a later term, or the same term and a
  -- position that is not lower. An empty log has nothing to compare.
  pub data IsRecent (log : List (LogEntry C)) (args : RequestVoteArgs) : Type ℓ where
    empty : last_entry log ≡ none → IsRecent log args
    newer :
        (x : LogEntry C) → last_entry log ≡ some x → x.term < args.last_log_term → IsRecent log args
    longer :
        (x : LogEntry C)
        → last_entry log ≡ some x
        → args.last_log_term ≡ x.term
        → length log - 1 ≤ args.last_log_index
        → IsRecent log args

  is_cand_up_to_date-IsRecent :
      (rf : Raft C) (args : RequestVoteArgs)
      → is_cand_up_to_date rf args ≡ true
      → IsRecent rf.log args
  unfolding is_cand_up_to_date
  is_cand_up_to_date-IsRecent rf args h = elim (Option-cases (last_entry rf.log)) [
    | inl e ↦ empty e
    | inr (x, e) ↦ elim (Bool-cases (ltb x.term args.last_log_term)) [
      | inl above ↦ newer x e (ground arith)
      | inr other ↦ longer x e (ground (arith, h, e, other)) (ground (arith, h, e, other))
    ]
  ]

  IsRecent-is_cand_up_to_date :
      (rf : Raft C) (args : RequestVoteArgs)
      → IsRecent rf.log args
      → is_cand_up_to_date rf args ≡ true
  unfolding is_cand_up_to_date
  IsRecent-is_cand_up_to_date rf args (empty e) = rw (e, is_cand_up_to_date) refl
  IsRecent-is_cand_up_to_date rf args (newer x e h) = rw (e, is_cand_up_to_date) (ground (arith, h))
  IsRecent-is_cand_up_to_date rf args (longer x e same h) =
      rw (e, is_cand_up_to_date) (ground (arith, same, h))

  votes_exactly :
      (rf : Raft C) (args : RequestVoteArgs)
      → let r = request_vote rf args in
        ((r.1.vote_granted ≡ true) ↔ (
          (rf.current_term ≤ args.term)
          × (can_vote_for rf.voted_for args.candidate_id ≡ true)
          × (is_cand_up_to_date rf args ≡ true)))
        × (r.0.voted_for ≡ (if r.1.vote_granted then some args.candidate_id else rf.voted_for))
        × (r.0.log ≡ rf.log)
        × (r.1.term ≡ r.0.current_term)
        × (r.0.current_term
            ≡ (if ltb rf.current_term args.term then args.term else rf.current_term))
  unfolding request_vote adopt_term cast_vote is_cand_up_to_date
  votes_exactly rf args = ground arith

  -- A vote is granted exactly when the call's term is not older, the peer has voted for nobody or for
  -- this candidate, be it in an earlier term, and the candidate's last entry has a later term than
  -- the peer's, or the same term and a position that is not lower, or the peer has no entry. The
  -- candidate then has the vote; otherwise the vote stays where it was. The answer carries the new
  -- term, which is the larger, and the log stays as it is.
  pub request_vote-granted :
      (rf : Raft C) (args : RequestVoteArgs)
      → let r = request_vote rf args in
        ((r.1.vote_granted ≡ true) ↔ (
          (rf.current_term ≤ args.term)
          × ((rf.voted_for ≡ none) ⊎ (rf.voted_for ≡ some args.candidate_id))
          × IsRecent rf.log args))
        × (r.0.voted_for ≡ (if r.1.vote_granted then some args.candidate_id else rf.voted_for))
        × (r.0.log ≡ rf.log)
        × (r.1.term ≡ r.0.current_term)
        × (r.0.current_term
            ≡ (if ltb rf.current_term args.term then args.term else rf.current_term))
  request_vote-granted rf args =
      let (iff, vote, log, answer, term1) = votes_exactly rf args in
      (
        (
          λ granted.
              let (term, free, recent) = iff.0 granted in
              (
                term,
                free_from rf.voted_for args.candidate_id free,
                is_cand_up_to_date-IsRecent rf args recent,
              ),
          λ (term, free, recent). iff.1 (
            term,
            free_to rf.voted_for args.candidate_id free,
            IsRecent-is_cand_up_to_date rf args recent,
          ),
        ),
        vote,
        log,
        answer,
        term1,
      )

  -- The candidates that get a vote in a run of calls.
  pub grants : List RequestVoteArgs → Raft C → List ℕ
  grants [] rf = []
  grants (a ∷ calls) rf =
      let (rf1, reply, sent) = request_vote rf a in
      let rest = grants calls rf1 in if reply.vote_granted then a.candidate_id ∷ rest else rest

  grants-voted :
      (calls : List RequestVoteArgs) (rf : Raft C) (v : ℕ)
      → rf.voted_for ≡ some v
      → AllAre v (grants calls rf)
  unfolding grants
  grants-voted [] rf v h = tt
  grants-voted (a ∷ calls) rf v h =
      let r = request_vote rf a in
      let (iff, vote, log, term, later) = votes_exactly rf a in
      elim (Bool-cases r.1.vote_granted) [
        | inl yes_vote ↦
            let same : a.candidate_id ≡ v =
              can_vote_for-some rf.voted_for a.candidate_id v h (iff.0 yes_vote).1 in
            rw yes_vote
              (same, grants-voted calls r.0 v (vote ∙ rw yes_vote (ap (λ (c : ℕ). some c) same)))
        | inr no_vote ↦ rw no_vote (grants-voted calls r.0 v (vote ∙ rw no_vote h))
      ]

  -- In a run of `RequestVote` calls, whatever their terms, all votes go to one candidate.
  pub grants-one :
      (calls : List RequestVoteArgs) (rf : Raft C) → (v : ℕ) × AllAre v (grants calls rf)
  unfolding grants
  grants-one [] rf = (0, tt)
  grants-one (a ∷ calls) rf =
      let r = request_vote rf a in
      let vote = (votes_exactly rf a).1 in
      elim (Bool-cases r.1.vote_granted) [
        | inl yes_vote ↦ (
          a.candidate_id,
          rw yes_vote (refl, grants-voted calls r.0 a.candidate_id (vote ∙ rw yes_vote)),
        )
        | inr no_vote ↦ let (v, all) = grants-one calls r.0 in (v, rw no_vote all)
      ]
