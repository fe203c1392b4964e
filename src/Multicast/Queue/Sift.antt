-- ===== src/Multicast/Queue/Sift.antt =====
-- multicast-demo/types/priority_queue.go: `up` and `down` of the heap return, with the rounds that they
-- are given, and keep every message's position in its index.
use dist_sys_demos.Base.{
  ℕ, zero, suc, ◌+◌, ◌-◌, ◌*◌, ◌/◌, ◌≤◌, ◌<◌, ◌≡◌, refl, ◌∙◌, Bool, true, false, Option, some,
  length, get_elem?, arith, ltb, leb, ◌==◌, Bool-cases, inl, inr,
}
use dist_sys_demos.Multicast.Queue.{Queue, less, swap, up, child, down}
use dist_sys_demos.Multicast.Queue.Places.{PlacedFrom, Keeps, less-some, swap-Keeps, swap-other}

-- The queue has kept its length, and its messages from place `n` on.
abbrev pub KeepsAt : ℕ → Queue → Option (Queue × ℕ) → Type 0
KeepsAt n q r =
    (q1 : Queue) × (k : ℕ) × (r ≡ some (q1, k))
    × PlacedFrom 0 q1
    × (length q1 ≡ length q)
    × ((p : ℕ) → n ≤ p → get_elem? q1 p ≡ get_elem? q p)

-- The same, without a place.
abbrev pub KeepsFrom : ℕ → Queue → Option Queue → Type 0
KeepsFrom n q r =
    (q1 : Queue) × (r ≡ some q1)
    × PlacedFrom 0 q1
    × (length q1 ≡ length q)
    × ((p : ℕ) → n ≤ p → get_elem? q1 p ≡ get_elem? q p)

-- `j + 1` rounds are enough for `up` from place `j`.
pub up-Keeps :
    (fuel j : ℕ) (q : Queue)
    → j < fuel
    → j < length q
    → PlacedFrom 0 q
    → KeepsFrom (suc j) q (up fuel j q)
unfolding up
up-Keeps zero j q f hj h = absurd (omega arith)
up-Keeps (suc fuel) j q f hj h = elim (Bool-cases ((j - 1) / 2 == j)) [
  | inl top ↦ (q, rw top, h, refl, λ p lo. refl)
  | inr below ↦
      step below (less-some j ((j - 1) / 2) q hj (omega arith))
        (λ q1 h1 l1. up-Keeps fuel ((j - 1) / 2) q1 (ground arith) (omega (arith, l1)) h1)
]
  where
    i : ℕ
    i = (j - 1) / 2

    climb :
        (i == j) ≡ false
        → less j i q ≡ some true
        → ((q1 : Queue)
            → PlacedFrom 0 q1
            → length q1 ≡ length q
            → KeepsFrom (suc i) q1 (up fuel i q1))
        → Keeps (length q) (swap i j q)
        → KeepsFrom (suc j) q (up (suc fuel) j q)
    climb below e ih (q1, e1, h1, l1) =
        let (q2, e2, h2, l2, same) = ih q1 h1 l1 in
        (
          q2,
          rw (below, e, e1) e2,
          h2,
          l2 ∙ l1,
          λ p at.
              same p (ground arith)
              ∙ swap-other i j p q q1 e1 (λ (x : i ≡ p). ground arith) (λ (x : j ≡ p). omega arith),
        )

    step :
        (i == j) ≡ false
        → (b : Bool) × (less j i q ≡ some b)
        → ((q1 : Queue)
            → PlacedFrom 0 q1
            → length q1 ≡ length q
            → KeepsFrom (suc i) q1 (up fuel i q1))
        → KeepsFrom (suc j) q (up (suc fuel) j q)
    step below (true, e) ih = climb below e ih (swap-Keeps i j q (omega arith) hj h)
    step below (false, e) ih = (q, rw (below, e), h, refl, λ p lo. refl)

child-some :
    (n l : ℕ) (q : Queue)
    → l < n
    → n ≤ length q
    → (j : ℕ) × (child n l q ≡ some j) × (l ≤ j) × (j < n)
unfolding child
child-some n l q hl hn = elim (Bool-cases (ltb (suc l) n)) [
  | inl two ↦ pick two (less-some (suc l) l q (ground arith) (omega arith))
  | inr one ↦ (l, rw one, omega arith, hl)
]
  where
    pick :
        ltb (suc l) n ≡ true
        → (b : Bool) × (less (suc l) l q ≡ some b)
        → (j : ℕ) × (child n l q ≡ some j) × (l ≤ j) × (j < n)
    pick two (true, e) = (suc l, rw (two, e), omega arith, ground arith)
    pick two (false, e) = (l, rw (two, e), omega arith, hl)

-- `n - i + 1` rounds are enough for `down` from place `i`.
pub down-Keeps :
    (fuel i n : ℕ) (q : Queue)
    → n < i + fuel
    → i ≤ n
    → n ≤ length q
    → PlacedFrom 0 q
    → KeepsAt n q (down fuel i n q)
unfolding down
down-Keeps zero i n q f hi hn h = absurd (omega arith)
down-Keeps (suc fuel) i n q f hi hn h = elim (Bool-cases (leb n (2 * i + 1))) [
  | inl leaf ↦ (q, i, rw leaf, h, refl, λ p lo. refl)
  | inr inner ↦ visit inner (child-some n (2 * i + 1) q (ground arith) hn) (λ q1 j lo hi1 h1 l1.
      down-Keeps fuel j n q1 (omega arith) (omega arith) (omega (arith, l1)) h1)
]
  where
    Sinks : Type 0
    Sinks =
        (q1 : Queue) (j : ℕ)
        → i < j
        → j < n
        → PlacedFrom 0 q1
        → length q1 ≡ length q
        → KeepsAt n q1 (down fuel j n q1)

    sink :
        leb n (2 * i + 1) ≡ false
        → (j : ℕ) → child n (2 * i + 1) q ≡ some j
        → i < j
        → j < n
        → less j i q ≡ some true
        → Sinks
        → Keeps (length q) (swap i j q)
        → KeepsAt n q (down (suc fuel) i n q)
    sink inner j ec lo hi1 e ih (q1, e1, h1, l1) =
        let (q2, k, e2, h2, l2, same) = ih q1 j lo hi1 h1 l1 in
        (
          q2,
          k,
          rw (inner, ec, e, e1) e2,
          h2,
          l2 ∙ l1,
          λ p at.
              same p at
              ∙ swap-other i j p q q1 e1 (λ (x : i ≡ p). omega arith) (λ (x : j ≡ p). omega arith),
        )

    compare_child :
        leb n (2 * i + 1) ≡ false
        → (j : ℕ) → child n (2 * i + 1) q ≡ some j
        → i < j
        → j < n
        → (b : Bool) × (less j i q ≡ some b)
        → Sinks
        → KeepsAt n q (down (suc fuel) i n q)
    compare_child inner j ec lo hi1 (true, e) ih =
        sink inner j ec lo hi1 e ih (swap-Keeps i j q (omega arith) (omega arith) h)
    compare_child inner j ec lo hi1 (false, e) ih = (q, i, rw (inner, ec, e), h, refl, λ p lo. refl)

    visit :
        leb n (2 * i + 1) ≡ false
        → (j : ℕ) × (child n (2 * i + 1) q ≡ some j) × (2 * i + 1 ≤ j) × (j < n)
        → Sinks
        → KeepsAt n q (down (suc fuel) i n q)
    visit inner (j, ec, lo, hi1) ih =
        compare_child inner j ec (omega arith) hi1 (less-some j i q (omega arith) (omega arith)) ih
