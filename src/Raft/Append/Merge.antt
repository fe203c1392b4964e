-- ===== src/Raft/Append/Merge.antt =====
-- raft-demo/src/raft/rpc.go: the two loops of `AppendEntries` over the entries, against a
-- description of the log that they should leave.
use dist_sys_demos.Base.{
  map, zero, ℕ, suc, ◌+◌, ◌-◌, ◌≤◌, ◌<◌, ◌≡◌, refl, sym, ap, ◌∙◌, Bool, true, false, some, List, [],
  ◌∷◌, ◌++◌, append-nil, append_assoc, subst, ltb→lt, lt→ltb, length-snoc, drop-nil, length, take,
  drop, get_elem?, length-append, get_elem?-middle, take-append, take-append-drop, length-take,
  arith, ltb, ◌==◌, if◌then◌else◌, nat_eq, Bool-cases, inl, inr,
}
use dist_sys_demos.Base.Dict.{Dict, lookup, insert, lookup-insert, lookup-nil}
use dist_sys_demos.Raft.State.{LogEntry, term_at}
use dist_sys_demos.Raft.Log.{IndexedFrom}
use dist_sys_demos.Raft.Append.{is_some, find_conflict, append_missing, merge_entries}

minus_suc : (i n : ℕ) → i < n → n - i ≡ suc (n - suc i)
minus_suc i n h = omega arith

minus_zero : (i n : ℕ) → ltb i n ≡ false → n - i ≡ 0
minus_zero i n h = ground arith

minus_none : (n : ℕ) → n - 0 ≡ n
minus_none n = omega arith

-- `inLog` holds the positions below `n`.
abbrev Covers : Dict ℕ Bool → ℕ → Type 0
Covers m n = (j : ℕ) → is_some (lookup j m) ≡ ltb j n

Covers-nil : Covers [] 0
Covers-nil j = rw (lookup-nil {V = Bool} j) (ground arith)

Covers-insert : (m : Dict ℕ Bool) (i : ℕ) → Covers m i → Covers (insert i true m) (suc i)
Covers-insert m i c j = rw (lookup-insert i j true m) (ground (arith, c j))

module _ {ℓ} {C : Type ℓ} where
  -- The end of a log with entries laid over it: what agrees is kept, and from the first conflict
  -- on the entries replace it.
  unfoldable pub overlay : List (LogEntry C) → List (LogEntry C) → List (LogEntry C)
  overlay [] es = es
  overlay (x ∷ suf) [] = x ∷ suf
  overlay (x ∷ suf) (e ∷ es) =
      let rest = overlay suf es in if x.term == e.term then x ∷ rest else e ∷ es

  pub overlay-IndexedFrom :
      (n : ℕ) (suf es : List (LogEntry C))
      → IndexedFrom n suf
      → IndexedFrom n es
      → IndexedFrom n (overlay suf es)
  unfolding overlay
  overlay-IndexedFrom n [] es hs he = he
  overlay-IndexedFrom n (x ∷ suf) [] hs he = hs
  overlay-IndexedFrom n (x ∷ suf) (e ∷ es) hs he =
      ground (arith, overlay-IndexedFrom (suc n) suf es hs.1 he.1)

  -- Every entry is in the result at its place, by its term.
  pub overlay-term_at :
      (suf es : List (LogEntry C)) (j t : ℕ)
      → term_at es j ≡ some t
      → term_at (overlay suf es) j ≡ some t
  unfolding overlay
  overlay-term_at [] es j t h = h
  overlay-term_at (x ∷ suf) [] j t h = cc
  overlay-term_at (x ∷ suf) (e ∷ es) zero t h = ground arith
  overlay-term_at (x ∷ suf) (e ∷ es) (suc j) t h = ground (arith, overlay-term_at suf es j t h)

  take-length : (es : List (LogEntry C)) → take (length es) es ≡ es
  take-length [] = refl
  take-length (e ∷ es) = ap (λ l. e ∷ l) (take-length es)

  -- The same of all entries at once.
  pub overlay-terms :
      (suf es : List (LogEntry C))
      → map (λ (x : LogEntry C). x.term) (take (length es) (overlay suf es))
        ≡ map (λ (x : LogEntry C). x.term) es
  unfolding overlay
  overlay-terms [] es = ap (map (λ (x : LogEntry C). x.term)) (take-length es)
  overlay-terms (x ∷ suf) [] = refl
  overlay-terms (x ∷ suf) (e ∷ es) = elim (Bool-cases (x.term == e.term)) [
    | inl same ↦ rw (same, overlay) (ground (arith, same, overlay-terms suf es))
    | inr other ↦ rw (other, overlay) (ap (map (λ (y : LogEntry C). y.term)) (take-length (e ∷ es)))
  ]

  -- What the first loop leaves of the end of the log, and how many entries it finds there.
  kept : List (LogEntry C) → List (LogEntry C) → List (LogEntry C)
  kept [] es = []
  kept (x ∷ suf) [] = x ∷ suf
  kept (x ∷ suf) (e ∷ es) = let rest = kept suf es in if x.term == e.term then x ∷ rest else []

  matched : List (LogEntry C) → List (LogEntry C) → ℕ
  matched [] es = 0
  matched (x ∷ suf) [] = 0
  matched (x ∷ suf) (e ∷ es) = let rest = matched suf es in if x.term == e.term then suc rest else 0

  overlay-eq :
      (suf es : List (LogEntry C)) → kept suf es ++ drop (matched suf es) es ≡ overlay suf es
  unfolding overlay kept matched
  overlay-eq [] es = refl
  overlay-eq (x ∷ suf) [] = append-nil (x ∷ suf)
  overlay-eq (x ∷ suf) (e ∷ es) = elim (Bool-cases (x.term == e.term)) [
    | inl same ↦ rw same (ap (λ l. x ∷ l) (overlay-eq suf es))
    | inr other ↦ rw other
  ]

  find_conflict-past :
      (es : List (LogEntry C)) (n i : ℕ) (log : List (LogEntry C)) (m : Dict ℕ Bool)
      → IndexedFrom n es
      → length log ≤ n
      → find_conflict es i log m ≡ (log, m)
  unfolding find_conflict
  find_conflict-past [] n i log m ix h = refl
  find_conflict-past (e ∷ es) n i log m ix h =
      ground (arith, find_conflict-past es (suc n) (suc i) log m ix.1)

  term_at-of_elem :
      (log : List (LogEntry C)) (i : ℕ) (x : LogEntry C)
      → get_elem? log i ≡ some x
      → term_at log i ≡ some x.term
  term_at-of_elem log i x h = rw (h, term_at)

  find_conflict-nil :
      (i : ℕ) (log : List (LogEntry C)) (m : Dict ℕ Bool) → find_conflict [] i log m ≡ (log, m)
  unfolding find_conflict
  find_conflict-nil i log m = refl

  find_conflict-cons :
      (e : LogEntry C) (es : List (LogEntry C)) (i : ℕ) (log : List (LogEntry C)) (m : Dict ℕ Bool)
      (t : ℕ)
      → ltb e.index (length log) ≡ true
      → term_at log e.index ≡ some t
      → find_conflict (e ∷ es) i log m ≡ (
          if t == e.term
          then find_conflict es (suc i) log (insert i true m)
          else (take e.index log, m))
  unfolding find_conflict
  find_conflict-cons e es i log m t inside here = rw (inside, here) (ground arith)

  -- The first loop, where the log is `pre ++ suf` and the entries begin right after `pre`.
  find_conflict_lem :
      (es : List (LogEntry C)) (i : ℕ) (m : Dict ℕ Bool) (log pre suf : List (LogEntry C))
      → log ≡ pre ++ suf
      → IndexedFrom (length pre) es
      → Covers m i
      → let found = find_conflict es i log m in
        (found.0 ≡ pre ++ kept suf es) × Covers found.1 (i + matched suf es)
  unfolding kept matched
  find_conflict_lem es i m log pre [] at ix c =
      rw (find_conflict-past es (length pre) i log m ix (rw (at, append-nil pre) (omega arith)))
        (at, λ j. c j ∙ ap (ltb j) (omega arith))
  find_conflict_lem [] i m log pre (x ∷ suf) at ix c =
      rw (find_conflict-nil i log m) (at, λ j. c j ∙ ap (ltb j) (omega arith))
  find_conflict_lem (e ∷ es) i m log pre (x ∷ suf) at ix c = elim (Bool-cases (x.term == e.term)) [
    | inl same ↦
        let ih =
          find_conflict_lem es (suc i) (insert i true m) log (pre ++ x ∷ []) suf
            (at ∙ sym (append_assoc pre (x ∷ []) suf))
            (subst (λ n. IndexedFrom n es) (sym (length-snoc pre x)) ix.1) (Covers-insert m i c) in
        rw (find_conflict-cons e es i log m x.term inside here, same)
          (ih.0 ∙ append_assoc pre (x ∷ []) (kept suf es), λ j. ih.1 j ∙ ap (ltb j) (omega arith))
    | inr other ↦
        rw (find_conflict-cons e es i log m x.term inside here, other)
          (cut, λ j. c j ∙ ap (ltb j) (omega arith))
  ]
    where
      inside : ltb e.index (length log) ≡ true
      inside = lt→ltb _ _ (rw (ix.0, at) (omega (arith, length-append pre (x ∷ suf))))

      here : term_at log e.index ≡ some x.term
      here =
          rw (ix.0, at)
            (term_at-of_elem (pre ++ x ∷ suf) (length pre) x (get_elem?-middle pre x suf))

      cut : take e.index log ≡ pre ++ []
      cut = rw (ix.0, at, append-nil pre) (take-append pre (x ∷ suf))

  -- The second loop, where the first `n` entries are in the log already.
  append_missing-needed :
      (es : List (LogEntry C)) (i : ℕ) (m : Dict ℕ Bool) (log : List (LogEntry C))
      → append_missing es i m true log ≡ log ++ es
  unfolding append_missing
  append_missing-needed [] i m log = sym (append-nil log)
  append_missing-needed (e ∷ es) i m log =
      append_missing-needed es (suc i) m (log ++ e ∷ []) ∙ append_assoc log (e ∷ []) es

  append_missing_lem :
      (es : List (LogEntry C)) (i n : ℕ) (m : Dict ℕ Bool) (log : List (LogEntry C))
      → Covers m n
      → append_missing es i m false log ≡ log ++ drop (n - i) es
  unfolding append_missing
  append_missing_lem [] i n m log c = rw (drop-nil {A = LogEntry C} (n - i)) (sym (append-nil log))
  append_missing_lem (e ∷ es) i n m log c = elim (Bool-cases (ltb i n)) [
    | inl old ↦
        rw (c i, old) rw (minus_suc i n (ltb→lt i n old)) (append_missing_lem es (suc i) n m log c)
    | inr new ↦
        rw (c i, new) rw (minus_zero i n new)
          (append_missing-needed es (suc i) m (log ++ e ∷ []) ∙ append_assoc log (e ∷ []) es)
  ]

  -- Where the log is not empty and the entries carry the positions from `b` on, inside the log or
  -- right behind it, the two loops keep the log below `b` and lay the entries over the rest: stale entries never cut the log short.
  pub merge_entries_lem :
      (b : ℕ) (log es : List (LogEntry C))
      → IndexedFrom b es
      → b ≤ length log
      → 0 < length log
      → merge_entries log es ≡ take b log ++ overlay (drop b log) es
  unfolding merge_entries
  merge_entries_lem b log es ix inside full = rw (lt→ltb 0 (length log) full) (
      append_missing_lem es 0 n m cut (λ j. found.1 j ∙ ap (ltb j) (omega arith))
      ∙ rw (found.0, append_assoc, minus_none n)
          (ap (λ l. take b log ++ l) (overlay-eq (drop b log) es)))
    where
      at : b ≡ length (take b log)
      at = omega (arith, length-take b log)

      n : ℕ
      n = matched (drop b log) es

      m : Dict ℕ Bool
      m = (find_conflict es 0 log []).1

      cut : List (LogEntry C)
      cut = (find_conflict es 0 log []).0

      found : (cut ≡ take b log ++ kept (drop b log) es) × Covers m (0 + n)
      found =
          find_conflict_lem es 0 [] log (take b log) (drop b log) (sym (take-append-drop b log))
            (subst (λ k. IndexedFrom k es) at ix) Covers-nil
