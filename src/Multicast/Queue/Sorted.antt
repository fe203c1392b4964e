-- ===== src/Multicast/Queue/Sorted.antt =====
-- multicast-demo/types/priority_queue.go: `Push`, `Pop`, `Update` and `Remove` keep the queue a heap of
-- the same messages, and `Pop` takes the one that comes first.
use mathlib.Core.List.Perm
use mathlib.Core.Bool.{Bool-set}
use mathlib.Core.List.{Perm, Mem, forall_mem-cons, not-mem-nil, mem-cons_self, mem-cons_of_mem}
use dist_sys_demos.Base.{
  ℕ, zero, suc, ◌-◌, ◌≤◌, ◌<◌, ◌≡◌, sym, ap, ◌∙◌, subst, Option, none, some, [], ◌∷◌, ◌++◌, map,
  length, length-snoc, length-take, take, arith,
}
use dist_sys_demos.Multicast.Queue.{Message, Queue, before, append_message, drop_last, push}
use dist_sys_demos.Multicast.Queue.Places.{PlacedFrom}
use dist_sys_demos.Multicast.Queue.Heap.{Takes, push-Keeps}
use dist_sys_demos.Multicast.Queue.Order.{
  at, forget, SameMessages, NotAfter, NotAfter-trans, NotAfter-refl, at-of_elem, elem-at, at-append,
  at-take,
}
use dist_sys_demos.Multicast.Queue.Children.{parent}
use dist_sys_demos.Multicast.Queue.Descent.{IsHeap}
use dist_sys_demos.Multicast.Queue.Ascent.{UpInv, up-Ordered}

-- The queue is in heap order, and every message carries its position.
pub record IsQueue (q : Queue) : Type 0 where
  pub heap : IsHeap (length q) q
  pub placed : PlacedFrom 0 q

pub some-same {ℓ} : {A : Type ℓ} (a b : A) → some a ≡ some b → a ≡ b
some-same a b e = cc

pub root_first_below :
    (k : ℕ) (q : Queue) (i : ℕ)
    → IsHeap (length q) q
    → i < k
    → i < length q
    → NotAfter (at q 0) (at q i)
root_first_below zero q i h f p = absurd (omega arith)
root_first_below (suc k) q zero h f p = NotAfter-refl (at q 0)
root_first_below (suc k) q (suc i) h f p =
    NotAfter-trans (at q 0) (at q (parent (suc i))) (at q (suc i))
      (root_first_below k q (parent (suc i)) h (omega arith) (omega arith))
      (h (suc i) (omega arith) p)

-- No message of the queue comes before this one.
abbrev pub IsFirst : Message → Queue → Type 0
IsFirst m q = (t : Message) → Mem t (map forget q) → NotAfter m t

pub IsFirst-of_places :
    (m : Message) (q : Queue) → ((i : ℕ) → i < length q → NotAfter m (at q i)) → IsFirst m q
unfolding at before
IsFirst-of_places m [] h = λ t e. absurd (not-mem-nil e)
IsFirst-of_places m (x ∷ q) h =
    (forall_mem-cons (λ t. Bool-set _ _)).1
      (h 0 (omega arith), IsFirst-of_places m q (λ i p. h (suc i) (omega arith)))

pub IsFirst-at :
    (m : Message) (q : Queue) (i : ℕ) → IsFirst m q → i < length q → NotAfter m (at q i)
unfolding at before
IsFirst-at m [] i h p = absurd (omega arith)
IsFirst-at m (x ∷ q) zero h p = h (forget x) mem-cons_self
IsFirst-at m (x ∷ q) (suc i) h p =
    IsFirst-at m q i (λ t e. h t (mem-cons_of_mem (forget x) e)) (omega arith)

snoc-same : (q : Queue) (m : Message) → Perm (map forget (q ++ m ∷ [])) (forget m ∷ map forget q)
snoc-same [] m = Perm.rfl
snoc-same (x ∷ q) m =
    Perm.trans (Perm.cons (forget x) (snoc-same q m))
      (Perm.swap (forget m) (forget x) (map forget q))

push-UpInv :
    (m : Message) (q : Queue)
    → IsHeap (length q) q
    → UpInv (suc (length q)) (q ++ m ∷ []) (length q)
push-UpInv m q h = record {
  inside = omega arith;
  edges = λ c p r s.
      let hc : c < length q = omega arith in
      subst (λ x. NotAfter x (at (q ++ m ∷ []) c))
        (sym (at-append q (m ∷ []) (parent c) (omega arith)))
        (subst (NotAfter (at q (parent c))) (sym (at-append q (m ∷ []) c hc)) (h c p hc));
  bridged = λ c p r s t. absurd (omega arith);
}

-- A message is added: the queue is still a heap, of the same messages and the new one.
pub push-IsQueue :
    (m : Message) (q : Queue)
    → IsQueue q
    → (q1 : Queue) × (push m q ≡ some q1)
      × IsQueue q1
      × Perm (map forget q1) (forget m ∷ map forget q)
unfolding push append_message
push-IsQueue m q v =
    let m1 : Message = record m { index = some (length q) } in
    let (q1, e1, heap, same) =
      up-Ordered (suc (length q)) (length q) (suc (length q)) (q ++ m1 ∷ []) (omega arith)
        (omega (arith, length-snoc q m1)) (push-UpInv m1 q v.heap) in
    let (q2, e2, placed, l2) = push-Keeps m q v.placed in
    let e : q2 ≡ q1 = some-same q2 q1 (sym e2 ∙ e1) in
    (
      q1,
      e1,
      record {
        heap = subst (λ n. IsHeap n q1) (sym l2 ∙ ap length e) heap;
        placed = subst (PlacedFrom 0) e placed;
      },
      Perm.trans same (snoc-same q m1),
    )

IsHeap-take :
    (n : ℕ) (q : Queue) → n ≤ length q → IsHeap n q → IsHeap (length (take n q)) (take n q)
IsHeap-take n q hn h c p r =
    let hc : c < n = omega (arith, length-take n q) in
    subst (λ x. NotAfter x (at (take n q) c)) (sym (at-take n q (parent c) (omega arith)))
      (subst (NotAfter (at q (parent c))) (sym (at-take n q c hc)) (h c p hc))

take-last :
    (n : ℕ) (q : Queue)
    → length q ≡ suc n
    → Perm (forget (at q n) ∷ map forget (take n q)) (map forget q)
unfolding at
take-last n [] l = absurd (omega arith)
take-last zero (x ∷ []) l = Perm.rfl
take-last zero (x ∷ y ∷ q) l = absurd (omega arith)
take-last (suc n) (x ∷ q) l =
    Perm.trans (Perm.swap (forget x) (forget (at q n)) (map forget (take n q)))
      (Perm.cons (forget x) (take-last n q (omega arith)))

drop_last_lem :
    (q : Queue)
    → 0 < length q
    → drop_last q ≡ some (forget (at q (length q - 1)), take (length q - 1) q)
unfolding drop_last
drop_last_lem q full = rw (elem-at q (length q - 1) (omega arith), drop_last)

-- The operation takes a message and leaves a heap of the others.
abbrev pub TakesOut : Message → Queue → Option (Message × Queue) → Type 0
TakesOut m q r =
    (q1 : Queue) × (r ≡ some (forget m, q1))
    × IsQueue q1
    × Perm (forget m ∷ map forget q1) (map forget q)

-- `drop_last` behind a step that leaves all but the last message in order.
pub last-TakesOut :
    (p : ℕ) (q q2 : Queue) (r : Option (Message × Queue))
    → Takes p q r
    → r ≡ drop_last q2
    → 0 < length q
    → length q2 ≡ length q
    → IsHeap (length q - 1) q2
    → SameMessages q2 q
    → TakesOut (at q p) q r
last-TakesOut p q q2 r (m, q1, em, e1, placed, l1) e full l2 heap same =
    let n = length q2 - 1 in
    let full2 : 0 < length q2 = omega arith in
    let inside : n ≤ length q2 = omega arith in
    let whole : length q2 ≡ suc n = omega arith in
    let e2 : some (record m { index = none }, q1) ≡ some (forget (at q2 n), take n q2) =
      sym e1 ∙ e ∙ drop_last_lem q2 full2 in
    let pair = some-same (record m { index = none }, q1) (forget (at q2 n), take n q2) e2 in
    let here : at q p ≡ m = at-of_elem q p m em in
    let moved : forget (at q p) ≡ forget (at q2 n) = ap forget here ∙ ap (λ x. x.0) pair in
    let rest : q1 ≡ take n q2 = ap (λ x. x.1) pair in
    (
      q1,
      e1 ∙ ap (λ x. some (forget x, q1)) (sym here),
      record {
        heap =
            subst (λ l. IsHeap (length l) l) (sym rest)
              (IsHeap-take n q2 inside (subst (λ k. IsHeap (k - 1) q2) (sym l2) heap));
        placed = placed;
      },
      subst (λ x. Perm (x ∷ map forget q1) (map forget q)) (sym moved)
          (subst (λ l. Perm (forget (at q2 n) ∷ map forget l) (map forget q)) (sym rest)
            (Perm.trans (take-last n q2 whole) same)),
    )
