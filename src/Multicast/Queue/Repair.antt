-- ===== src/Multicast/Queue/Repair.antt =====
-- multicast-demo/types/priority_queue.go: `heap.Fix`, which tries `down` and then `up`, restores the
-- heap order around one place.
use mathlib.Core.List.Perm
use dist_sys_demos.Base.{
  ◌⊎◌, ℕ, suc, ◌+◌, ◌*◌, ◌≤◌, ◌<◌, ◌≡◌, sym, subst, true, false, Option, some, length, arith, ltb,
  leb, ◌==◌, Bool-cases, inl, inr, lt→ltb,
}
use dist_sys_demos.Multicast.Queue.{Queue, before, swap, child, down, settle}
use dist_sys_demos.Multicast.Queue.Places.{swap-some}
use dist_sys_demos.Multicast.Queue.Order.{at, NotAfter, NotAfter-trans, length-swap, swap-same}
use dist_sys_demos.Multicast.Queue.Children.{parent, less_lem, IsFirstChild, child_lem}
use dist_sys_demos.Multicast.Queue.Descent.{AnyInv, swap-DownInv, Descended, down-Descended}
use dist_sys_demos.Multicast.Queue.Ascent.{UpInv, Ordered, up-Ordered}

-- `down` has moved the message at `i`, or the fault is above it.
abbrev Tried : ℕ → ℕ → Queue → Option (Queue × ℕ) → Type 0
Tried i n q r = ((r ≡ some (q, i)) × UpInv n q i) ⊎ Descended (suc i) n q r

ltb_self : (n : ℕ) → ltb n n ≡ false
ltb_self n = ground arith

UpInv-leaf : (n i : ℕ) (q : Queue) → AnyInv n q i → i < n → n ≤ 2 * i + 1 → UpInv n q i
UpInv-leaf n i q v hi leaf = record {
  inside = hi;
  edges = λ c p r s. v.edges c p r s (λ (e : parent c ≡ i). omega arith);
  bridged = v.bridged;
}

UpInv-settled :
    (n i j : ℕ) (q : Queue)
    → AnyInv n q i
    → i < n
    → IsFirstChild n q i j
    → NotAfter (at q i) (at q j)
    → UpInv n q i
UpInv-settled n i j q v hi f settled = record {
  inside = hi;
  edges = λ c p r s. elim (Bool-cases (parent c == i)) [
    | inl below ↦
        let e : parent c ≡ i = ground arith in
        subst (λ k. NotAfter (at q k) (at q c)) (sym e)
          (NotAfter-trans (at q i) (at q j) (at q c) settled (f.first c p r e))
    | inr other ↦ v.edges c p r s (λ (e : parent c ≡ i). ground arith)
  ];
  bridged = v.bridged;
}

down-Tried :
    (i n : ℕ) (q : Queue) → i < n → n ≤ length q → AnyInv n q i → Tried i n q (down (suc n) i n q)
unfolding down
down-Tried i n q hi hn v = elim (Bool-cases (leb n (2 * i + 1))) [
  | inl leaf ↦ inl (rw leaf, UpInv-leaf n i q v hi (ground arith))
  | inr inner ↦ visit inner (child_lem n q i (ground arith) hn)
]
  where
    sink :
        leb n (2 * i + 1) ≡ false
        → (j : ℕ) → child n (2 * i + 1) q ≡ some j
        → IsFirstChild n q i j
        → i < j
        → j < n
        → before (at q j) (at q i) ≡ true
        → (q1 : Queue) × (swap i j q ≡ some q1)
        → Tried i n q (down (suc n) i n q)
    sink inner j ec f lo hj e (q1, e1) =
        let l1 = length-swap i j q q1 e1 (omega arith) (omega arith) in
        let (q2, k, e2, hk, heap, same) =
          down-Descended n j n q1 (omega arith) (omega arith) (omega (arith, l1))
            (swap-DownInv n i j q q1 v f hn e1 e) in
        inr (
          q2,
          k,
          rw (inner, ec, less_lem j i q (omega arith) (omega arith), e, e1, down) e2,
          omega arith,
          heap,
          Perm.trans same (swap-same i j q q1 e1 (omega arith) (omega arith)),
        )

    visit :
        leb n (2 * i + 1) ≡ false
        → (j : ℕ) × (child n (2 * i + 1) q ≡ some j) × IsFirstChild n q i j
        → Tried i n q (down (suc n) i n q)
    visit inner (j, ec, f) =
        let hj : j < n = f.inside in
        let lo : i < j = ground (arith, f.below) in
        elim (Bool-cases (before (at q j) (at q i))) [
          | inl moves ↦ sink inner j ec f lo hj moves (swap-some i j q (omega arith) (omega arith))
          | inr stays ↦ inl (
            rw (inner, ec, less_lem j i q (omega arith) (omega arith), stays, down),
            UpInv-settled n i j q v hi f stays,
          )
        ]

pub settle-Ordered :
    (i n : ℕ) (q : Queue) → i < n → n ≤ length q → AnyInv n q i → Ordered n q (settle i n q)
unfolding settle
settle-Ordered i n q hi hn v = go (down-Tried i n q hi hn v)
  where
    go : Tried i n q (down (suc n) i n q) → Ordered n q (settle i n q)
    go (inl (e, w)) =
        let (q1, e1, heap, same) = up-Ordered (suc i) i n q (omega arith) hn w in
        (q1, rw (e, ltb_self i, settle) e1, heap, same)
    go (inr (q1, k, e, hk, heap, same)) = (q1, rw (e, lt→ltb i k hk, settle), heap, same)
