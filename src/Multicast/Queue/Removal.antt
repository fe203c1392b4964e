-- ===== src/Multicast/Queue/Removal.antt =====
-- multicast-demo/types/priority_queue.go: `Pop` takes the message that comes first, `Remove` a given
-- one, and `Update` changes the priority of one; each leaves a heap.
use mathlib.Core.List.Perm
use mathlib.Core.List.{Perm}
use dist_sys_demos.Base.{
  ◌≢◌, ℕ, suc, ◌-◌, ◌<◌, ◌≡◌, refl, sym, ap, ◌∙◌, subst, false, none, some, ◌∷◌, map, length,
  length-set, set, arith, ◌==◌, Bool-cases, inl, inr,
}
use dist_sys_demos.Multicast.Queue.{
  Message, Queue, swap, down, settle, pop, fix, remove_at, update, remove,
}
use dist_sys_demos.Multicast.Queue.Places.{PlacedFrom, swap-some, placed_at}
use dist_sys_demos.Multicast.Queue.Heap.{Takes, pop-Takes, update-Keeps, remove-Takes}
use dist_sys_demos.Multicast.Queue.Order.{
  at, forget, SameMessages, NotAfter, NotAfter-trans, elem-at, at-set, length-swap, at-swap,
  swap-same, set-same, length-same,
}
use dist_sys_demos.Multicast.Queue.Children.{parent}
use dist_sys_demos.Multicast.Queue.Descent.{IsHeap, DownInv, AnyInv, Descended, down-Descended}
use dist_sys_demos.Multicast.Queue.Ascent.{Ordered}
use dist_sys_demos.Multicast.Queue.Repair.{settle-Ordered}
use dist_sys_demos.Multicast.Queue.Sorted.{
  IsQueue, some-same, root_first_below, IsFirst, IsFirst-of_places, TakesOut, last-TakesOut,
}

swap-root-DownInv :
    (n : ℕ) (q q1 : Queue)
    → length q ≡ suc n
    → IsHeap (length q) q
    → swap 0 n q ≡ some q1
    → DownInv n q1 0
swap-root-DownInv n q q1 l h e =
    let swaps = at-swap 0 n q q1 e (omega arith) (omega arith) in
    record {
      edges = λ c p r s.
          let here : at q1 c ≡ at q c = ground (arith, swaps c) in
          let above : at q1 (parent c) ≡ at q (parent c) = ground (arith, swaps (parent c)) in
          rw (here, above) (h c p (omega arith));
      bridged = λ c p r s t. absurd (omega arith);
    }

-- From a queue that is not empty `Pop` takes a message that none of the queue comes before, and
-- leaves a heap of the others.
pub pop-TakesOut :
    (q : Queue) → IsQueue q → 0 < length q → TakesOut (at q 0) q (pop q) × IsFirst (at q 0) q
unfolding pop
pop-TakesOut q v full = (
  go (swap-some 0 (length q - 1) q full (omega arith)),
  IsFirst-of_places (at q 0) q (λ i p. root_first_below (suc i) q i v.heap (omega arith) p),
)
  where
    n : ℕ
    n = length q - 1

    last :
        (q1 : Queue)
        → swap 0 n q ≡ some q1
        → length q1 ≡ length q
        → SameMessages q1 q
        → Descended 0 n q1 (down (suc (length q)) 0 n q1)
        → TakesOut (at q 0) q (pop q)
    last q1 e1 l1 same1 (q2, k, e2, hk, heap, same2) =
        last-TakesOut 0 q q2 (pop q) (pop-Takes q full v.placed) (rw (e1, e2, pop)) full
          (length-same q2 q1 same2 ∙ l1) heap (Perm.trans same2 same1)

    go : (q1 : Queue) × (swap 0 n q ≡ some q1) → TakesOut (at q 0) q (pop q)
    go (q1, e1) =
        let l1 = length-swap 0 n q q1 e1 full (omega arith) in
        last q1 e1 l1 (swap-same 0 n q q1 e1 full (omega arith)) (
          down-Descended (suc (length q)) 0 n q1 (omega arith) (omega arith) (omega (arith, l1))
            (swap-root-DownInv n q q1 (omega arith) v.heap e1))

-- A heap in which one message has been replaced is in order but around its place.
pub replaced-AnyInv :
    (n i : ℕ) (q q1 : Queue)
    → IsHeap n q
    → i < n
    → ((c : ℕ) → c < n → c ≢ i → at q1 c ≡ at q c)
    → AnyInv n q1 i
replaced-AnyInv n i q q1 h hi same = record {
  edges = λ c p r s t. rw (same c r s, same (parent c) (omega arith) t) (h c p r);
  bridged = λ c p r s t.
      let here : at q1 c ≡ at q c = same c r (λ (e : c ≡ i). omega arith) in
      let above : at q1 (parent i) ≡ at q (parent i) =
        same (parent i) (omega arith) (λ (e : parent i ≡ i). omega arith) in
      rw (here, above)
        (NotAfter-trans (at q (parent i)) (at q i) (at q c) (h i t hi)
          (subst (λ k. NotAfter (at q k) (at q c)) s (h c p r)));
}

remove_at-TakesOut :
    (i : ℕ) (q : Queue)
    → IsQueue q
    → i < length q
    → Takes i q (remove_at i q)
    → TakesOut (at q i) q (remove_at i q)
unfolding remove_at
remove_at-TakesOut i q v hi takes = elim (Bool-cases (i == length q - 1)) [
  | inl last ↦
      last-TakesOut i q q (remove_at i q) takes (rw (last, remove_at)) (omega arith) refl
        (λ c p r. v.heap c p (omega arith)) Perm.rfl
  | inr inner ↦ go inner (swap-some i (length q - 1) q hi (omega arith))
]
  where
    n : ℕ
    n = length q - 1

    shorten :
        (i == n) ≡ false
        → (q1 : Queue) → swap i n q ≡ some q1
        → length q1 ≡ length q
        → SameMessages q1 q
        → Ordered n q1 (settle i n q1)
        → TakesOut (at q i) q (remove_at i q)
    shorten inner q1 e1 l1 same1 (q2, e2, heap, same2) =
        last-TakesOut i q q2 (remove_at i q) takes (rw (inner, e1, e2, remove_at)) (omega arith)
          (length-same q2 q1 same2 ∙ l1) heap (Perm.trans same2 same1)

    go :
        (i == n) ≡ false
        → (q1 : Queue) × (swap i n q ≡ some q1)
        → TakesOut (at q i) q (remove_at i q)
    go inner (q1, e1) =
        let below : i < n = ground arith in
        let hn : n < length q = omega arith in
        let l1 = length-swap i n q q1 e1 hi hn in
        let swaps = at-swap i n q q1 e1 hi hn in
        shorten inner q1 e1 l1 (swap-same i n q q1 e1 hi hn) (
          settle-Ordered i n q1 below (omega (arith, l1)) (
            replaced-AnyInv n i q q1 (λ c p r. v.heap c p (omega arith)) below
              (λ c r (s : c ≢ i). ground (arith, swaps c))))

-- The message at a place of the queue can be removed, and a heap of the others is left.
pub remove-TakesOut :
    (p : ℕ) (q : Queue) → IsQueue q → p < length q → TakesOut (at q p) q (remove p q)
unfolding remove
remove-TakesOut p q v hp =
    let here = elem-at q p hp in
    let index : (at q p).index ≡ some p =
      placed_at 0 p q (at q p) v.placed here ∙ ap (λ (k : ℕ). some k) (omega arith) in
    let same : remove p q ≡ remove_at p q = rw (here, remove) (rw (index)) in
    subst (TakesOut (at q p) q) (sym same)
      (remove_at-TakesOut p q v hp (subst (Takes p q) same (remove-Takes p q hp v.placed)))

-- `Update` gives the message at a place of the queue a new priority, and leaves a heap of it and the
-- others.
pub update-IsQueue :
    (p priority : ℕ) (q : Queue)
    → IsQueue q
    → p < length q
    → (q1 : Queue) × (update p priority q ≡ some q1)
      × IsQueue q1
      × Perm
          (forget (at q p) ∷ map forget q1)
          (record (at q p) { priority = priority; index = none } ∷ map forget q)
unfolding update fix
update-IsQueue p priority q v hp = go (update-Keeps p priority q hp v.placed)
  where
    m1 : Message
    m1 = record (at q p) { priority = priority }

    q0 : Queue
    q0 = set q p m1

    fixed : update p priority q ≡ settle p (length q0) q0
    fixed =
        let here = elem-at q p hp in
        let index : (at q p).index ≡ some p =
          placed_at 0 p q (at q p) v.placed here ∙ ap (λ (k : ℕ). some k) (omega arith) in
        rw (here, update) (simp index)

    go :
        (q2 : Queue) × (update p priority q ≡ some q2) × PlacedFrom 0 q2 × (length q2 ≡ length q)
        → (q1 : Queue) × (update p priority q ≡ some q1)
          × IsQueue q1
          × Perm
              (forget (at q p) ∷ map forget q1)
              (record (at q p) { priority = priority; index = none } ∷ map forget q)
    go (q2, e2, placed, l2) =
        let l0 : length q0 ≡ length q = length-set q p m1 in
        let (q1, e1, heap, same) = settle-Ordered p (length q0) q0 (omega arith) (omega arith) (
          replaced-AnyInv (length q0) p q q0 (λ c r s. v.heap c r (omega arith)) (omega arith)
            (λ c r (s : c ≢ p). ground (arith, at-set q p c m1 hp))) in
        let e : q2 ≡ q1 = some-same q2 q1 (sym e2 ∙ fixed ∙ e1) in
        (
          q1,
          fixed ∙ e1,
          record {
            heap = subst (λ k. IsHeap k q1) (l0 ∙ sym l2 ∙ ap length e) heap;
            placed = subst (PlacedFrom 0) e placed;
          },
          Perm.trans (Perm.cons (forget (at q p)) same) (set-same q p m1 hp),
        )
