-- ===== src/Raft/Leader/Replicate.antt =====
-- raft-demo/src/raft/raft.go: the calls that `replicate` makes.
use mathlib.Core.Option.{some-injective}
use dist_sys_demos.Base.{
  get_elem?-take, dec_lt, ◌||◌, ℕ, zero, suc, ◌+◌, ◌-◌, ◌≤◌, ◌<◌, ◌≡◌, refl, sym, ap, ◌∙◌, subst,
  true, false, some, List, [], ◌∷◌, length, take, drop, get_elem?, arith, ltb, get_elem?-some,
  get_elem?-drop, Bool-cases, inl, inr,
}
use dist_sys_demos.Base.Int.{pos}
use dist_sys_demos.Raft.State.{
  LogEntry, Raft, Effect, AppendEntriesArgs, AppendEntriesReply, term_at,
}
use dist_sys_demos.Raft.Log.{IndexedFrom, IndexedFrom-drop}
use dist_sys_demos.Raft.Append.{lacks_prev, append_entries}
use dist_sys_demos.Raft.Append.Parts.{IsLogged, IsCall, term_at-cong, lacks_prev-term}
use dist_sys_demos.Raft.Append.Handler.{append_entries-holds}
use dist_sys_demos.Raft.Leader.{missing_args, peer_args, call_args}

drop-end {ℓ} : {A : Type ℓ} (l : List A) → 0 < length l → drop (suc (length l - 1)) l ≡ []
drop-end {A} l h = drop-all l (suc (length l - 1)) (omega arith)
  where
    drop-all : (k : List A) (n : ℕ) → length k ≤ n → drop n k ≡ []
    drop-all [] zero h' = refl
    drop-all [] (suc n) h' = refl
    drop-all (x ∷ k) zero h' = absurd (omega arith)
    drop-all (x ∷ k) (suc n) h' = drop-all k n (omega arith)

module _ {ℓ} {C : Type ℓ} where
  -- A call that describes the leader's log: it names an entry of the log by its term, and holds
  -- all that follows.
  pub record Describes (rf : Raft C) (args : AppendEntriesArgs C) : Type ℓ where
    pub call : IsCall args
    pub prev : term_at rf.log args.prev_log_index ≡ args.prev_log_term
    pub entries : args.entries ≡ drop (suc args.prev_log_index) rf.log
    pub term : args.term ≡ rf.current_term
    pub commit : args.leader_commit ≡ rf.commit_index

  pub describes :
      (rf : Raft C) (p : ℕ) (y : LogEntry C)
      → IsLogged rf
      → get_elem? rf.log p ≡ some y
      → Describes rf (call_args rf p (some y.term) (drop (suc p) rf.log))
  describes rf p y wf e = record {
    call = record {
      follows =
          subst (λ k. IndexedFrom k (drop (suc p) rf.log)) (omega arith)
            (IndexedFrom-drop 0 (suc p) rf.log wf.indexed);
      prev_term = y.term;
      known = refl;
    };
    prev = rw (e, term_at);
    entries = refl;
    term = refl;
    commit = refl;
  }

  -- For a leader whose log carries its positions and a next index of at least 1 the arguments
  -- exist, and describe the leader's log.
  pub peer_args-Describes :
      (rf : Raft C) (p : ℕ)
      → IsLogged rf
      → (args : AppendEntriesArgs C) × (peer_args rf (pos (suc p)) ≡ some args) × Describes rf args
  unfolding peer_args missing_args
  peer_args-Describes rf p wf = elim (Bool-cases (ltb (suc p) (length rf.log))) [
    | inl behind ↦ send behind (get_elem?-some rf.log p (ground arith)) last
    | inr level ↦ beat level last
  ]
    where
      last : (x : LogEntry C) × (get_elem? rf.log (length rf.log - 1) ≡ some x)
      last = get_elem?-some rf.log (length rf.log - 1) (omega (arith, wf.full))

      send :
          ltb (suc p) (length rf.log) ≡ true
          → (y : LogEntry C) × (get_elem? rf.log p ≡ some y)
          → (x : LogEntry C) × (get_elem? rf.log (length rf.log - 1) ≡ some x)
          → (args : AppendEntriesArgs C) × (peer_args rf (pos (suc p)) ≡ some args)
            × Describes rf args
      send behind (y, e') (x, e) = (
        call_args rf p (some y.term) (drop (suc p) rf.log),
        ground (arith, e, e'),
        describes rf p y wf e',
      )

      beat :
          ltb (suc p) (length rf.log) ≡ false
          → (x : LogEntry C) × (get_elem? rf.log (length rf.log - 1) ≡ some x)
          → (args : AppendEntriesArgs C) × (peer_args rf (pos (suc p)) ≡ some args)
            × Describes rf args
      beat level (x, e) = (
        call_args rf (length rf.log - 1) (some x.term) (drop (suc (length rf.log - 1)) rf.log),
        rw (drop-end rf.log wf.full) (ground (arith, e)),
        describes rf (length rf.log - 1) x wf e,
      )

  from_entries :
      (lead log es : List (LogEntry C)) (b i t : ℕ)
      → es ≡ drop b lead
      → b ≤ i
      → term_at lead i ≡ some t
      → ((j s : ℕ) → term_at es j ≡ some s → term_at log (b + j) ≡ some s)
      → term_at log i ≡ some t
  from_entries lead log es b i t e h at has =
      subst (λ k. term_at log k ≡ some t) back
        (has (i - b) t (
          ap (λ l. term_at l (i - b)) e
          ∙ term_at-cong (drop b lead) (i - b) lead (b + (i - b)) (get_elem?-drop b lead (i - b))
          ∙ ap (term_at lead) back
          ∙ at))
    where
      back : b + (i - b) ≡ i
      back = omega arith

  from_prefix :
      (old log : List (LogEntry C)) (p i t : ℕ)
      → take (suc p) log ≡ take (suc p) old
      → i ≡ p
      → term_at old p ≡ some t
      → term_at log i ≡ some t
  from_prefix old log p i t same here at =
      ap (term_at log) here
      ∙ term_at-cong log p old p (
          sym (get_elem?-take (suc p) log p (omega arith))
          ∙ ap (λ l. get_elem? l p) same
          ∙ get_elem?-take (suc p) old p (omega arith))
      ∙ at

  -- For a leader and a peer whose logs carry their positions: the call that the leader makes for a
  -- next index of at least 1, if the peer does not refuse it, returns and brings the leader's log
  -- from the named entry on into the peer's log, term by term.
  pub peer_args-append_entries :
      (lead follow : Raft C) (p i t : ℕ) (args : AppendEntriesArgs C)
      → IsLogged lead
      → IsLogged follow
      → peer_args lead (pos (suc p)) ≡ some args
      → (ltb args.term follow.current_term || lacks_prev follow.log args) ≡ false
      → args.prev_log_index ≤ i
      → term_at lead.log i ≡ some t
      → (r : Raft C × AppendEntriesReply × List (Effect C)) × (append_entries follow args ≡ some r)
        × (term_at r.0.log i ≡ some t)
  peer_args-append_entries lead follow p i t args wl wf made h le at =
      let (r, run, ok, same, has, laid) = append_entries-holds follow args wf d.call h in
      (
        r,
        run,
        elim (dec_lt args.prev_log_index i) [
          | yes above ↦
              from_entries lead.log r.0.log args.entries (suc args.prev_log_index) i t d.entries
                above at has
          | no here ↦
              let same_i : i ≡ args.prev_log_index = omega arith in
              from_prefix follow.log r.0.log args.prev_log_index i t same same_i (
                lacks_prev-term follow.log args d.call (ground arith)
                ∙ sym d.prev
                ∙ ap (term_at lead.log) (sym same_i)
                ∙ at)
        ],
      )
    where
      described :
          (made' : (args' : AppendEntriesArgs C) × (peer_args lead (pos (suc p)) ≡ some args')
            × Describes lead args')
          → Describes lead args
      described (args', e, d') =
          subst (Describes lead) (some-injective args' args (sym e ∙ made)) d'

      d : Describes lead args
      d = described (peer_args-Describes lead p wl)
