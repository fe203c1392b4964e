-- ===== src/Multicast/Queue/Descent.antt =====
-- multicast-demo/types/priority_queue.go: `down` of the heap restores the heap order.
use mathlib.Core.List.Perm
use dist_sys_demos.Base.{
  ◌≢◌, ℕ, zero, suc, ◌+◌, ◌*◌, ◌≤◌, ◌<◌, ◌≡◌, sym, subst, true, false, Option, some, length, arith,
  leb, ◌==◌, Bool-cases, inl, inr,
}
use dist_sys_demos.Multicast.Queue.{Queue, before, swap, child, down}
use dist_sys_demos.Multicast.Queue.Places.{swap-some}
use dist_sys_demos.Multicast.Queue.Order.{
  at, SameMessages, NotAfter, NotAfter-trans, length-swap, at-swap, swap-same,
}
use dist_sys_demos.Multicast.Queue.Children.{parent, less_lem, IsFirstChild, child_lem}

-- Every place below `n` is in order with its parent.
abbrev pub IsHeap : ℕ → Queue → Type 0
IsHeap n q = (c : ℕ) → 0 < c → c < n → NotAfter (at q (parent c)) (at q c)

-- The parent of `i` is in order with the children of `i`.
abbrev pub IsBridged : ℕ → Queue → ℕ → Type 0
IsBridged n q i =
    (c : ℕ) → 0 < c → c < n → parent c ≡ i → 0 < i → NotAfter (at q (parent i)) (at q c)

-- Only the edges below `i` may be out of order.
pub record DownInv (n : ℕ) (q : Queue) (i : ℕ) : Type 0 where
  pub edges : (c : ℕ) → 0 < c → c < n → parent c ≢ i → NotAfter (at q (parent c)) (at q c)
  pub bridged : IsBridged n q i

-- Only the edges at `i` may be out of order.
pub record AnyInv (n : ℕ) (q : Queue) (i : ℕ) : Type 0 where
  pub edges : (c : ℕ) → 0 < c → c < n → c ≢ i → parent c ≢ i → NotAfter (at q (parent c)) (at q c)
  pub bridged : IsBridged n q i

-- The swap with that child moves the fault down.
pub swap-DownInv :
    (n i j : ℕ) (q q1 : Queue)
    → AnyInv n q i
    → IsFirstChild n q i j
    → n ≤ length q
    → swap i j q ≡ some q1
    → before (at q j) (at q i) ≡ true
    → DownInv n q1 j
unfolding before
swap-DownInv n i j q q1 v f hn e moved =
    let swaps = at-swap i j q q1 e (ground (arith, f.inside, f.below)) (omega (arith, f.inside)) in
    record {
      edges = λ c p r s. ground (
        arith,
        swaps c,
        swaps (parent c),
        v.edges c,
        v.bridged j,
        v.bridged c,
        f.first c,
        f.below,
      );
      bridged = λ c p r s t. ground (arith, swaps c, swaps (parent j), v.edges c, f.below);
    }

-- What `down` makes of a queue: its first `n` messages in the heap order, and the same messages.
abbrev pub Descended : ℕ → ℕ → Queue → Option (Queue × ℕ) → Type 0
Descended i n q r =
    (q1 : Queue) × (k : ℕ) × (r ≡ some (q1, k)) × (i ≤ k) × IsHeap n q1 × SameMessages q1 q

IsHeap-leaf : (n : ℕ) (q : Queue) (i : ℕ) → DownInv n q i → n ≤ 2 * i + 1 → IsHeap n q
IsHeap-leaf n q i v leaf c p r = v.edges c p r (λ (s : parent c ≡ i). omega arith)

IsHeap-settled :
    (n : ℕ) (q : Queue) (i j : ℕ)
    → DownInv n q i
    → IsFirstChild n q i j
    → NotAfter (at q i) (at q j)
    → IsHeap n q
IsHeap-settled n q i j v f settled c p r = elim (Bool-cases (parent c == i)) [
  | inl below ↦
      let e : parent c ≡ i = ground arith in
      subst (λ k. NotAfter (at q k) (at q c)) (sym e)
        (NotAfter-trans (at q i) (at q j) (at q c) settled (f.first c p r e))
  | inr other ↦ v.edges c p r (λ (s : parent c ≡ i). ground arith)
]

pub AnyInv-of_down : (n : ℕ) (q : Queue) (i : ℕ) → DownInv n q i → AnyInv n q i
AnyInv-of_down n q i v = record { edges = λ c p r s t. v.edges c p r t; bridged = v.bridged }

pub down-Descended :
    (fuel i n : ℕ) (q : Queue)
    → n < i + fuel
    → i ≤ n
    → n ≤ length q
    → DownInv n q i
    → Descended i n q (down fuel i n q)
unfolding down
down-Descended zero i n q f hi hn v = absurd (omega arith)
down-Descended (suc fuel) i n q f hi hn v = elim (Bool-cases (leb n (2 * i + 1))) [
  | inl leaf ↦ (q, i, rw leaf, omega arith, IsHeap-leaf n q i v (ground arith), Perm.rfl)
  | inr inner ↦ visit inner (child_lem n q i (ground arith) hn) (λ q1 j lo hi1 l1 w.
      down-Descended fuel j n q1 (omega arith) (omega arith) (omega (arith, l1)) w)
]
  where
    Sinks : Type 0
    Sinks =
        (q1 : Queue) (j : ℕ)
        → i < j
        → j < n
        → length q1 ≡ length q
        → DownInv n q1 j
        → Descended j n q1 (down fuel j n q1)

    sink :
        leb n (2 * i + 1) ≡ false
        → (j : ℕ) → child n (2 * i + 1) q ≡ some j
        → IsFirstChild n q i j
        → i < j
        → j < n
        → before (at q j) (at q i) ≡ true
        → Sinks
        → (q1 : Queue) × (swap i j q ≡ some q1)
        → Descended i n q (down (suc fuel) i n q)
    sink inner j ec f lo hi1 e ih (q1, e1) =
        let l1 = length-swap i j q q1 e1 (omega arith) (omega arith) in
        let (q2, k, e2, hk, heap, same) =
          ih q1 j lo hi1 l1 (swap-DownInv n i j q q1 (AnyInv-of_down n q i v) f hn e1 e) in
        (
          q2,
          k,
          rw (inner, ec, less_lem j i q (omega arith) (omega arith), e, e1, down) e2,
          omega arith,
          heap,
          Perm.trans same (swap-same i j q q1 e1 (omega arith) (omega arith)),
        )

    visit :
        leb n (2 * i + 1) ≡ false
        → (j : ℕ) × (child n (2 * i + 1) q ≡ some j) × IsFirstChild n q i j
        → Sinks
        → Descended i n q (down (suc fuel) i n q)
    visit inner (j, ec, f) ih =
        let hi1 : j < n = f.inside in
        let lo : i < j = ground (arith, f.below) in
        elim (Bool-cases (before (at q j) (at q i))) [
          | inl moves ↦
              sink inner j ec f lo hi1 moves ih (swap-some i j q (omega arith) (omega arith))
          | inr stays ↦ (
            q,
            i,
            rw (inner, ec, less_lem j i q (omega arith) (omega arith), stays, down),
            omega arith,
            IsHeap-settled n q i j v f stays,
            Perm.rfl,
          )
        ]
