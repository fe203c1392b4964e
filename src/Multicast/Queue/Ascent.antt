-- ===== src/Multicast/Queue/Ascent.antt =====
-- multicast-demo/types/priority_queue.go: `up` of the heap restores the heap order.
use mathlib.Core.List.Perm
use dist_sys_demos.Base.{
  ◌≢◌, ℕ, zero, suc, ◌-◌, ◌/◌, ◌≤◌, ◌<◌, ◌≡◌, sym, subst, true, false, Option, some, length, arith,
  ◌==◌, Bool-cases, inl, inr,
}
use dist_sys_demos.Multicast.Queue.{Queue, before, swap, up}
use dist_sys_demos.Multicast.Queue.Places.{swap-some}
use dist_sys_demos.Multicast.Queue.Order.{
  at, SameMessages, NotAfter, length-swap, at-swap, swap-same,
}
use dist_sys_demos.Multicast.Queue.Children.{parent, less_lem}
use dist_sys_demos.Multicast.Queue.Descent.{IsHeap, IsBridged}

-- Only the edge above `j` may be out of order.
pub record UpInv (n : ℕ) (q : Queue) (j : ℕ) : Type 0 where
  pub inside : j < n
  pub edges : (c : ℕ) → 0 < c → c < n → c ≢ j → NotAfter (at q (parent c)) (at q c)
  pub bridged : IsBridged n q j

swap-UpInv :
    (n j : ℕ) (q q1 : Queue)
    → UpInv n q j
    → n ≤ length q
    → swap (parent j) j q ≡ some q1
    → 0 < j
    → before (at q j) (at q (parent j)) ≡ true
    → UpInv n q1 (parent j)
unfolding before
swap-UpInv n j q q1 v hn e pos moved =
    let swaps = at-swap (parent j) j q q1 e (omega (arith, v.inside)) (omega (arith, v.inside)) in
    record {
      inside = omega (arith, v.inside);
      edges = λ c p r s.
          ground (arith, swaps c, swaps (parent c), v.edges c, v.edges (parent j), v.bridged c);
      bridged = λ c p r s t.
          ground
            (arith, swaps c, swaps (parent (parent j)), v.edges c, v.edges (parent j), v.bridged c);
    }

-- What an operation makes of a queue: its first `n` messages in the heap order, and the same
-- messages.
abbrev pub Ordered : ℕ → Queue → Option Queue → Type 0
Ordered n q r = (q1 : Queue) × (r ≡ some q1) × IsHeap n q1 × SameMessages q1 q

IsHeap-edge :
    (n j : ℕ) (q : Queue) → UpInv n q j → (0 < j → NotAfter (at q (parent j)) (at q j)) → IsHeap n q
IsHeap-edge n j q v top c p r = elim (Bool-cases (c == j)) [
  | inl here ↦
      let e : c ≡ j = ground arith in
      subst (λ k. NotAfter (at q (parent k)) (at q k)) (sym e) (top (omega arith))
  | inr there ↦ v.edges c p r (λ (e : c ≡ j). ground arith)
]

pub up-Ordered :
    (fuel j n : ℕ) (q : Queue) → j < fuel → n ≤ length q → UpInv n q j → Ordered n q (up fuel j q)
unfolding up
up-Ordered zero j n q f hn v = absurd (omega arith)
up-Ordered (suc fuel) j n q f hn v = elim (Bool-cases ((j - 1) / 2 == j)) [
  | inl top ↦ (q, rw top, IsHeap-edge n j q v (λ (p : 0 < j). ground arith), Perm.rfl)
  | inr below ↦
      visit below (λ q1 w l1. up-Ordered fuel (parent j) n q1 (ground arith) (omega (arith, l1)) w)
]
  where
    Climbs : Type 0
    Climbs =
        (q1 : Queue)
        → UpInv n q1 (parent j)
        → length q1 ≡ length q
        → Ordered n q1 (up fuel (parent j) q1)

    climb :
        (parent j == j) ≡ false
        → before (at q j) (at q (parent j)) ≡ true
        → Climbs
        → (q1 : Queue) × (swap (parent j) j q ≡ some q1)
        → Ordered n q (up (suc fuel) j q)
    climb below moves ih (q1, e1) =
        let hj : j < length q = omega (arith, v.inside) in
        let hp : parent j < length q = omega (arith, v.inside) in
        let l1 = length-swap (parent j) j q q1 e1 hp hj in
        let (q2, e2, heap, same) = ih q1 (swap-UpInv n j q q1 v hn e1 (ground arith) moves) l1 in
        (
          q2,
          rw (below, less_lem j (parent j) q hj hp, moves, e1, up) e2,
          heap,
          Perm.trans same (swap-same (parent j) j q q1 e1 hp hj),
        )

    visit : (parent j == j) ≡ false → Climbs → Ordered n q (up (suc fuel) j q)
    visit below ih =
        let hj : j < length q = omega (arith, v.inside) in
        let hp : parent j < length q = omega (arith, v.inside) in
        elim (Bool-cases (before (at q j) (at q (parent j)))) [
          | inl moves ↦ climb below moves ih (swap-some (parent j) j q hp hj)
          | inr stays ↦ (
            q,
            rw (below, less_lem j (parent j) q hj hp, stays, up),
            IsHeap-edge n j q v (λ (p : 0 < j). stays),
            Perm.rfl,
          )
        ]
