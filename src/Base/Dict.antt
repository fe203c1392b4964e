-- ===== src/Base/Dict.antt =====
-- A Go map as an association list with its keys in the order of insertion. The key's type has a
-- decided equality.
use dist_sys_demos.Base.{◌≡◌, refl, Option, none, some, List, [], ◌∷◌, arith, Eq, if◌then◌else◌}

abbrev pub Dict {ℓ κ} : Type ℓ → Type κ → Type (ℓ ⊔ κ)
Dict K V = List (K × V)

module _ {ℓ κ} {K : Type ℓ} {V : Type κ} ⦃e : Eq K⦄ where
  -- `v, ok := m[k]`
  unfoldable pub lookup : K → Dict K V → Option V
  lookup k [] = none
  lookup k ((j, v) ∷ m) = if e.beq j k then some v else lookup k m

  -- `m[k] = v`
  unfoldable pub insert : K → V → Dict K V → Dict K V
  insert k v [] = (k, v) ∷ []
  insert k v ((j, w) ∷ m) = if e.beq j k then (j, v) ∷ m else (j, w) ∷ insert k v m

  -- `delete(m, k)`
  unfoldable pub erase : K → Dict K V → Dict K V
  erase k [] = []
  erase k ((j, w) ∷ m) = let rest = erase k m in if e.beq j k then rest else (j, w) ∷ rest

module _ {ℓ κ} {K : Type ℓ} {V : Type κ} ⦃e : Eq K⦄ where
  pub lookup-nil : (k : K) → lookup {V = V} k [] ≡ none
  unfolding lookup
  lookup-nil k = refl

  pub lookup-insert :
      (k j : K) (v : V) (m : Dict K V)
      → lookup j (insert k v m) ≡ (if e.beq k j then some v else lookup j m)
  unfolding lookup insert
  lookup-insert k j v [] = refl
  lookup-insert k j v ((i, w) ∷ m) =
      ground (arith, e.beq_iff k j, e.beq_iff i k, e.beq_iff i j, lookup-insert k j v m)

  pub lookup-erase :
      (k j : K) (m : Dict K V) → lookup j (erase k m) ≡ (if e.beq k j then none else lookup j m)
  unfolding lookup erase
  lookup-erase k j [] = ground arith
  lookup-erase k j ((i, w) ∷ m) =
      ground (arith, e.beq_iff k j, e.beq_iff i k, e.beq_iff i j, lookup-erase k j m)

  -- No key is listed twice, as in every map.
  abbrev pub Unique : Dict K V → Type (ℓ ⊔ κ)
  Unique [] = Unit
  Unique ((k, v) ∷ m) = (lookup k m ≡ none) × Unique m

module _ {ℓ κ} {K : Type ℓ} {V : Type κ} ⦃e : Eq K⦄ where
  pub Unique-insert : (k : K) (v : V) (m : Dict K V) → Unique m → Unique (insert k v m)
  unfolding insert
  Unique-insert k v [] u = (lookup-nil k, tt)
  Unique-insert k v ((j, w) ∷ m) u =
      ground (arith, e.beq_iff k j, e.beq_iff j k, lookup-insert k j v m, Unique-insert k v m u.1)

  pub Unique-erase : (k : K) (m : Dict K V) → Unique m → Unique (erase k m)
  unfolding erase
  Unique-erase k [] u = tt
  Unique-erase k ((j, w) ∷ m) u = ground (arith, lookup-erase k j m, Unique-erase k m u.1)

  pub lookup-cons :
      (k j : K) (v : V) (m : Dict K V)
      → lookup k ((j, v) ∷ m) ≡ (if e.beq j k then some v else lookup k m)
  unfolding lookup
  lookup-cons k j v m = refl

  pub insert-nil : (k : K) (v : V) → insert k v [] ≡ (k, v) ∷ []
  unfolding insert
  insert-nil k v = refl

  pub insert-cons :
      (k j : K) (v w : V) (m : Dict K V)
      → insert k v ((j, w) ∷ m) ≡ (if e.beq j k then (j, v) ∷ m else (j, w) ∷ insert k v m)
  unfolding insert
  insert-cons k j v w m = refl

  pub lookup-insert_self : (k : K) (v : V) (m : Dict K V) → lookup k (insert k v m) ≡ some v
  lookup-insert_self k v m = rw (lookup-insert k k v m, (e.beq_iff k k).1 refl)
