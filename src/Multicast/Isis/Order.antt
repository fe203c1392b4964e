-- ===== src/Multicast/Isis/Order.antt =====
-- multicast-demo/types/multicast.go: the messages are delivered in the order of their priorities.
use mathlib.Core.List.Perm
use mathlib.Core.List.{Perm, mem-cons_of_mem}
use dist_sys_demos.Base.{
  ℕ, zero, suc, ◌≤◌, ◌<◌, ◌≡◌, refl, sym, ap, ◌∙◌, subst, true, Option, none, some, List, [], ◌∷◌,
  ◌++◌, map, length, length-set, set, arith, ◌==◌, if◌then◌else◌, Bool-cases, inl, inr,
}
use dist_sys_demos.Multicast.Queue.{Message, Queue, pop, find_by_id}
use dist_sys_demos.Multicast.Queue.Places.{PlacedFrom-set, placed_at}
use dist_sys_demos.Multicast.Queue.Order.{
  at, forget, NotAfter, NotAfter-forget, NotAfter-deliverable, elem-at, at-set, set-same,
  length-same,
}
use dist_sys_demos.Multicast.Queue.Children.{parent}
use dist_sys_demos.Multicast.Queue.Sorted.{IsQueue, IsFirst, TakesOut}
use dist_sys_demos.Multicast.Queue.Removal.{pop-TakesOut, update-IsQueue}
use dist_sys_demos.Multicast.Isis.{deliver_ready, mark_deliverable, receive_agreed}
use dist_sys_demos.Multicast.Isis.Delivery.{find_by_id-lt}

-- No message comes before an earlier one, among those delivered and those left in the queue.
abbrev pub InOrder : List Message → Queue → Type 0
InOrder [] q = Unit
InOrder (m ∷ ms) q = IsFirst m (ms ++ q) × InOrder ms q

-- Messages are delivered in order, and with the queue that is left they are those of the queue.
abbrev pub DeliversInOrder : Queue → Option (Queue × List Message) → Type 0
DeliversInOrder q r =
    (q1 : Queue) × (out : List Message) × (r ≡ some (q1, out))
    × IsQueue q1
    × InOrder out q1
    × Perm (map forget (out ++ q1)) (map forget q)

deliver_ready-InOrder :
    (rounds : ℕ) (q : Queue)
    → length q ≤ rounds
    → IsQueue q
    → DeliversInOrder q (deliver_ready rounds q)
unfolding deliver_ready at
deliver_ready-InOrder zero [] f v = ([], [], refl, v, tt, Perm.rfl)
deliver_ready-InOrder zero (m ∷ q) f v = absurd (omega arith)
deliver_ready-InOrder (suc rounds) [] f v = ([], [], refl, v, tt, Perm.rfl)
deliver_ready-InOrder (suc rounds) (m ∷ q) f v = elim (Bool-cases m.is_deliverable) [
  | inr waits ↦ (m ∷ q, [], rw waits, v, tt, Perm.rfl)
  | inl ready ↦
      let (takes, first) = pop-TakesOut (m ∷ q) v (omega arith) in
      go ready takes first (λ q1 w l1. deliver_ready-InOrder rounds q1 (omega (arith, l1)) w)
]
  where
    Rest : Type 0
    Rest =
        (q1 : Queue)
        → IsQueue q1
        → length q1 ≡ length q
        → DeliversInOrder q1 (deliver_ready rounds q1)

    go :
        m.is_deliverable ≡ true
        → TakesOut m (m ∷ q) (pop (m ∷ q))
        → IsFirst m (m ∷ q)
        → Rest
        → DeliversInOrder (m ∷ q) (deliver_ready (suc rounds) (m ∷ q))
    go ready (q1, e1, w, same) first ih =
        let (q2, out, e2, w2, sorted, same2) = ih q1 w (length-same q1 q (Perm.cons_inv same)) in
        (
          q2,
          forget m ∷ out,
          rw (e1, e2, ready),
          w2,
          (
            λ t e. NotAfter-forget m t (
                first t
                  ((Perm.mem_iff same).0 (mem-cons_of_mem (forget m) ((Perm.mem_iff same2).0 e)))),
            sorted,
          ),
          Perm.trans (Perm.cons (forget m) same2) same,
        )

marked-IsQueue :
    (p : ℕ) (q : Queue)
    → IsQueue q
    → p < length q
    → (q0 : Queue) × (mark_deliverable p q ≡ some q0)
      × IsQueue q0
      × (length q0 ≡ length q)
      × (at q0 p ≡ record (at q p) { is_deliverable = true })
      × Perm
          (forget (at q p) ∷ map forget q0)
          (forget (record (at q p) { is_deliverable = true }) ∷ map forget q)
unfolding mark_deliverable
marked-IsQueue p q v hp =
    let m1 : Message = record (at q p) { is_deliverable = true } in
    let here = elem-at q p hp in
    (
      set q p m1,
      rw (here, mark_deliverable),
      record {
        heap = λ c h r.
            let hc : c < length q = omega (arith, length-set q p m1) in
            subst (λ x. NotAfter x (at (set q p m1) c)) (sym (at_marked (parent c)))
              (subst
                (NotAfter (
                  if p == parent c
                  then record (at q (parent c)) { is_deliverable = true }
                  else at q (parent c)))
                (sym (at_marked c))
                (NotAfter-deliverable (at q (parent c)) (at q c) (p == parent c) (p == c)
                  (v.heap c h hc)));
        placed = PlacedFrom-set 0 p m1 q v.placed (placed_at 0 p q (at q p) v.placed here);
      },
      length-set q p m1,
      ground (arith, at-set q p p m1 hp),
      set-same q p m1 hp,
    )
  where
    at_marked :
        (c : ℕ)
        → at (set q p (record (at q p) { is_deliverable = true })) c
          ≡ (if p == c then record (at q c) { is_deliverable = true } else at q c)
    at_marked c =
        at-set q p c (record (at q p) { is_deliverable = true }) hp ∙ elim (Bool-cases (p == c)) [
          | inl same ↦
              let e : p ≡ c = ground arith in
              rw same (ap (λ k. record (at q k) { is_deliverable = true }) e)
          | inr other ↦ rw other
        ]

-- The message whose priority is agreed, as it then stands in the queue.
abbrev pub settled : Message → ℕ → Message
settled m priority = record m { priority = priority; is_deliverable = true; index = none }

-- An agreed priority for a message at a place of a queue that is in heap order: `ISIS` returns, and
-- what it delivers is in the order of priority and sender, also against every message that is left,
-- which are in heap order. The messages delivered and left are those of the queue, where the one
-- has the agreed priority and is deliverable.
pub receive_agreed-InOrder :
    (message : Message) (q : Queue) (p : ℕ)
    → find_by_id message.id 0 q ≡ some p
    → IsQueue q
    → (q1 : Queue) × (out : List Message) × (receive_agreed message q ≡ some (q1, out))
      × IsQueue q1
      × InOrder out q1
      × Perm
          (forget (at q p) ∷ map forget (out ++ q1))
          (settled (at q p) message.priority ∷ map forget q)
unfolding receive_agreed
receive_agreed-InOrder message q p found v =
    let hp : p < length q = omega (arith, find_by_id-lt message.id 0 p q found) in
    let (q0, e0, v0, l0, at0, same0) = marked-IsQueue p q v hp in
    let (q2, e2, v2, same2) = update-IsQueue p message.priority q0 v0 (omega (arith, l0)) in
    let (q1, out, e1, v1, sorted, same1) = deliver_ready-InOrder (length q2) q2 (omega arith) v2 in
    let m = forget (at q p) in
    let m1 = forget (record (at q p) { is_deliverable = true }) in
    let last : Perm (m1 ∷ map forget q2) (settled (at q p) message.priority ∷ map forget q0) =
      subst
        (λ x.
          Perm (forget x ∷ map forget q2)
            (record x { priority = message.priority; index = none } ∷ map forget q0))
        at0 same2 in
    (
      q1,
      out,
      rw (found, e0, e2, receive_agreed) e1,
      v1,
      sorted,
      Perm.trans (Perm.cons m same1) (
          chain m m1 (settled (at q p) message.priority) (map forget q) (map forget q0)
            (map forget q2) same0 last),
    )
  where
    -- One replacement after another.
    chain :
        (x y z : Message) (l l0 l2 : List Message)
        → Perm (x ∷ l0) (y ∷ l)
        → Perm (y ∷ l2) (z ∷ l0)
        → Perm (x ∷ l2) (z ∷ l)
    chain x y z l l0 l2 a b = Perm.cons_inv {a = y} (
        Perm.trans (Perm.swap x y l2) (
          Perm.trans (Perm.cons x b)
            (Perm.trans (Perm.swap z x l0) (Perm.trans (Perm.cons z a) (Perm.swap y z l)))))
