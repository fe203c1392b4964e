-- ===== src/Multicast/Queue/Places.antt =====
-- multicast-demo/types/priority_queue.go: every message in the queue carries its own position, which
-- `Update` and `Remove` rely on, and the heap operations return.
use dist_sys_demos.Base.{
  ℕ, zero, suc, ◌+◌, ◌<◌, ◌≡◌, refl, ap, ◌∙◌, Bool, Option, none, some, [], ◌∷◌, ◌++◌, length, take,
  set, get_elem?, arith, Option-cases, ◌⊎◌, ◌≢◌, inl, inr, get_elem?-some, length-set,
  get_elem?-set_self, get_elem?-set_ne,
}
use dist_sys_demos.Multicast.Queue.{Message, Queue, before, less, swap}

-- The messages carry the indices `n`, `n + 1`, and so on.
abbrev pub PlacedFrom : ℕ → Queue → Type 0
PlacedFrom n [] = Unit
PlacedFrom n (m ∷ q) = (m.index ≡ some n) × PlacedFrom (suc n) q

-- The operation returns a queue of a given length whose messages carry their positions.
abbrev pub Keeps : ℕ → Option Queue → Type 0
Keeps n r = (q1 : Queue) × (r ≡ some q1) × PlacedFrom 0 q1 × (length q1 ≡ n)

pub PlacedFrom-set :
    (n i : ℕ) (m : Message) (q : Queue)
    → PlacedFrom n q
    → m.index ≡ some (i + n)
    → PlacedFrom n (set q i m)
PlacedFrom-set n i m [] h e = tt
PlacedFrom-set n zero m (x ∷ q) h e = (e ∙ ap (λ (k : ℕ). some k) (omega arith), h.1)
PlacedFrom-set n (suc i) m (x ∷ q) h e =
    (h.0, PlacedFrom-set (suc n) i m q h.1 (e ∙ ap (λ (k : ℕ). some k) (omega arith)))

pub PlacedFrom-snoc :
    (n : ℕ) (q : Queue) (m : Message)
    → PlacedFrom n q
    → m.index ≡ some (length q + n)
    → PlacedFrom n (q ++ m ∷ []) × (length (q ++ m ∷ []) ≡ suc (length q))
PlacedFrom-snoc n [] m h e = ((e ∙ ap (λ (k : ℕ). some k) (omega arith), tt), refl)
PlacedFrom-snoc n (x ∷ q) m h e =
    let ih = PlacedFrom-snoc (suc n) q m h.1 (e ∙ ap (λ (k : ℕ). some k) (omega arith)) in
    ((h.0, ih.0), ap suc ih.1)

pub PlacedFrom-take : (n k : ℕ) (q : Queue) → PlacedFrom n q → PlacedFrom n (take k q)
PlacedFrom-take n zero q h = tt
PlacedFrom-take n (suc k) [] h = tt
PlacedFrom-take n (suc k) (x ∷ q) h = (h.0, PlacedFrom-take (suc n) k q h.1)

pub placed_at :
    (n i : ℕ) (q : Queue) (m : Message)
    → PlacedFrom n q
    → get_elem? q i ≡ some m
    → m.index ≡ some (i + n)
placed_at n i [] m h e = cc
placed_at n zero (x ∷ q) m h e = ground arith
placed_at n (suc i) (x ∷ q) m h e =
    placed_at (suc n) i q m h.1 e ∙ ap (λ (k : ℕ). some k) (omega arith)

pub less-some :
    (i j : ℕ) (q : Queue) → i < length q → j < length q → (b : Bool) × (less i j q ≡ some b)
unfolding less
less-some i j q hi hj = go (get_elem?-some q i hi) (get_elem?-some q j hj)
  where
    go :
        (a : Message) × (get_elem? q i ≡ some a)
        → (b : Message) × (get_elem? q j ≡ some b)
        → (b : Bool) × (less i j q ≡ some b)
    go (a, ea) (b, eb) = (before a b, ground (arith, ea, eb))

pub swap-Keeps :
    (i j : ℕ) (q : Queue)
    → i < length q
    → j < length q
    → PlacedFrom 0 q
    → Keeps (length q) (swap i j q)
unfolding swap
swap-Keeps i j q hi hj h = go (get_elem?-some q i hi) (get_elem?-some q j hj)
  where
    go :
        (a : Message) × (get_elem? q i ≡ some a)
        → (b : Message) × (get_elem? q j ≡ some b)
        → Keeps (length q) (swap i j q)
    go (a, ea) (b, eb) =
        let a1 : Message = record a { index = some j } in
        let b1 : Message = record b { index = some i } in
        (
          set (set q i b1) j a1,
          ground (arith, ea, eb),
          PlacedFrom-set 0 j a1 (set q i b1)
              (PlacedFrom-set 0 i b1 q h (ap (λ (k : ℕ). some k) (omega arith)))
              (ap (λ (k : ℕ). some k) (omega arith)),
          length-set (set q i b1) j a1 ∙ length-set q i b1,
        )

pub swap_inv :
    (i j : ℕ) (q q1 : Queue)
    → swap i j q ≡ some q1
    → (a : Message) × (b : Message) × (get_elem? q i ≡ some a)
      × (get_elem? q j ≡ some b)
      × (q1 ≡ set (set q i (record b { index = some i })) j (record a { index = some j }))
unfolding swap
swap_inv i j q q1 e = go (Option-cases (get_elem? q i)) (Option-cases (get_elem? q j))
  where
    go :
        (get_elem? q i ≡ none) ⊎ ((a : Message) × (get_elem? q i ≡ some a))
        → (get_elem? q j ≡ none) ⊎ ((b : Message) × (get_elem? q j ≡ some b))
        → (a : Message) × (b : Message) × (get_elem? q i ≡ some a)
          × (get_elem? q j ≡ some b)
          × (q1 ≡ set (set q i (record b { index = some i })) j (record a { index = some j }))
    go (inl n) y = absurd (ground (arith, n))
    go (inr x) (inl n) = absurd (ground (arith, n, x.1))
    go (inr (a, ea)) (inr (b, eb)) = (a, b, ea, eb, ground (arith, ea, eb))

pub swap-other :
    (i j p : ℕ) (q q1 : Queue)
    → swap i j q ≡ some q1
    → i ≢ p
    → j ≢ p
    → get_elem? q1 p ≡ get_elem? q p
swap-other i j p q q1 e ni nj =
    let (a, b, ea, eb, e1) = swap_inv i j q q1 e in
    ap (λ l. get_elem? l p) e1
    ∙ get_elem?-set_ne (set q i (record b { index = some i })) j p (record a { index = some j }) nj
    ∙ get_elem?-set_ne q i p (record b { index = some i }) ni

-- The message at the first place goes to the second.
pub swap-moves :
    (i j : ℕ) (q q1 : Queue)
    → swap i j q ≡ some q1
    → j < length q
    → (a : Message) × (get_elem? q i ≡ some a)
      × (get_elem? q1 j ≡ some (record a { index = some j }))
swap-moves i j q q1 e hj =
    let (a, b, ea, eb, e1) = swap_inv i j q q1 e in
    (
      a,
      ea,
      ap (λ l. get_elem? l j) e1
          ∙ get_elem?-set_self (set q i (record b { index = some i })) j
              (record a { index = some j })
              (omega (arith, length-set q i (record b { index = some i }))),
    )

pub swap-some :
    (i j : ℕ) (q : Queue) → i < length q → j < length q → (q1 : Queue) × (swap i j q ≡ some q1)
unfolding swap
swap-some i j q hi hj =
    let (a, ea) = get_elem?-some q i hi in
    let (b, eb) = get_elem?-some q j hj in
    (
      set (set q i (record b { index = some i })) j (record a { index = some j }),
      ground (arith, ea, eb),
    )
