-- ===== src/Raft/Log.antt =====
-- raft-demo/src/raft: logs whose entries carry their own positions, which is how every entry is
-- made (`Start` in raft.go gives it the index `len(rf.log)`).
use dist_sys_demos.Base.{
  ℕ, zero, suc, ◌+◌, ◌<◌, ◌≡◌, refl, some, List, [], ◌∷◌, ◌++◌, length, take, drop, arith,
}
use dist_sys_demos.Base.{subst}
use dist_sys_demos.Raft.State.{LogEntry, last_entry}

module _ {ℓ} {C : Type ℓ} where
  -- The entries carry the indices `n`, `n + 1`, and so on.
  abbrev pub IndexedFrom : ℕ → List (LogEntry C) → Type 0
  IndexedFrom n [] = Unit
  IndexedFrom n (x ∷ l) = (x.index ≡ n) × IndexedFrom (suc n) l

  pub IndexedFrom-take :
      (n k : ℕ) (l : List (LogEntry C)) → IndexedFrom n l → IndexedFrom n (take k l)
  IndexedFrom-take n zero l h = tt
  IndexedFrom-take n (suc k) [] h = tt
  IndexedFrom-take n (suc k) (x ∷ l) h = (h.0, IndexedFrom-take (suc n) k l h.1)

  pub IndexedFrom-drop :
      (n k : ℕ) (l : List (LogEntry C)) → IndexedFrom n l → IndexedFrom (k + n) (drop k l)
  IndexedFrom-drop n zero l h = subst (λ m. IndexedFrom m l) (omega arith) h
  IndexedFrom-drop n (suc k) [] h = tt
  IndexedFrom-drop n (suc k) (x ∷ l) h =
      subst (λ m. IndexedFrom m (drop k l)) (omega arith) (IndexedFrom-drop (suc n) k l h.1)

  pub IndexedFrom-append :
      (n : ℕ) (xs ys : List (LogEntry C))
      → IndexedFrom n xs
      → IndexedFrom (length xs + n) ys
      → IndexedFrom n (xs ++ ys)
  IndexedFrom-append n [] ys hx hy = subst (λ m. IndexedFrom m ys) (omega arith) hy
  IndexedFrom-append n (x ∷ xs) ys hx hy =
      (hx.0, IndexedFrom-append (suc n) xs ys hx.1 (subst (λ m. IndexedFrom m ys) (omega arith) hy))

  -- The last entry of a log that is not empty carries the last position.
  pub last_entry-index :
      (n : ℕ) (l : List (LogEntry C))
      → IndexedFrom n l
      → 0 < length l
      → (x : LogEntry C) × (last_entry l ≡ some x) × (suc x.index ≡ n + length l)
  last_entry-index n [] h full = absurd (omega arith)
  last_entry-index n (x ∷ []) h full = (x, refl, omega arith)
  last_entry-index n (x ∷ y ∷ l) h full =
      let (z, e, p) = last_entry-index (suc n) (y ∷ l) h.1 (omega arith) in (z, e, omega arith)
