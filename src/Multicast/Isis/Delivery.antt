-- ===== src/Multicast/Isis/Delivery.antt =====
-- multicast-demo/types/multicast.go: only messages whose priority is agreed are delivered, and as many
-- as stand first in the queue.
use dist_sys_demos.Base.{
  ℕ, zero, suc, ◌+◌, ◌≤◌, ◌<◌, ◌≡◌, refl, true, false, Option, none, some, List, [], ◌∷◌, length,
  set, length-set, get_elem?, get_elem?-some, arith, Bool-cases, inl, inr,
}
use dist_sys_demos.Base.Text.{Text}
use dist_sys_demos.Multicast.Queue.{Message, Queue, pop, find_by_id, update}
use dist_sys_demos.Multicast.Queue.Places.{PlacedFrom, Keeps, PlacedFrom-set, placed_at}
use dist_sys_demos.Multicast.Queue.Heap.{Takes, pop-Takes, update-Keeps}
use dist_sys_demos.Multicast.Isis.{deliver_ready, mark_deliverable, receive_agreed}

abbrev pub AllDeliverable : List Message → Type 0
AllDeliverable [] = Unit
AllDeliverable (m ∷ ms) = (m.is_deliverable ≡ true) × AllDeliverable ms

-- No message stands first that could be delivered.
abbrev pub Waiting : Queue → Type 0
Waiting [] = Unit
Waiting (m ∷ q) = m.is_deliverable ≡ false

-- Deliverable messages, as many as the queue has become shorter by.
abbrev pub Delivers : Queue → Option (Queue × List Message) → Type 0
Delivers q r =
    (q1 : Queue) × (out : List Message) × (r ≡ some (q1, out))
    × AllDeliverable out
    × Waiting q1
    × PlacedFrom 0 q1
    × (length q ≡ length q1 + length out)

-- One round for each message is enough.
deliver_ready-Delivers :
    (rounds : ℕ) (q : Queue)
    → length q ≤ rounds
    → PlacedFrom 0 q
    → Delivers q (deliver_ready rounds q)
unfolding deliver_ready
deliver_ready-Delivers zero [] f h = ([], [], refl, tt, tt, tt, refl)
deliver_ready-Delivers zero (m ∷ q) f h = absurd (omega arith)
deliver_ready-Delivers (suc rounds) [] f h = ([], [], refl, tt, tt, tt, refl)
deliver_ready-Delivers (suc rounds) (m ∷ q) f h = elim (Bool-cases m.is_deliverable) [
  | inr waits ↦ (m ∷ q, [], rw waits, tt, waits, h, omega arith)
  | inl ready ↦
      go ready (pop-Takes (m ∷ q) (omega arith) h)
        (λ q1 h1 l1. deliver_ready-Delivers rounds q1 (omega (arith, l1)) h1)
]
  where
    Rest : Type 0
    Rest =
        (q1 : Queue)
        → PlacedFrom 0 q1
        → length q1 ≡ length q
        → Delivers q1 (deliver_ready rounds q1)

    go :
        m.is_deliverable ≡ true
        → Takes 0 (m ∷ q) (pop (m ∷ q))
        → Rest
        → Delivers (m ∷ q) (deliver_ready (suc rounds) (m ∷ q))
    go ready (x, q1, e, e1, h1, l1) ih =
        let lq : length q1 ≡ length q = omega (arith, l1) in
        let (q2, out, e2, all, wait, h2, l2) = ih q1 h1 lq in
        let same : x.is_deliverable ≡ true = ground arith in
        (
          q2,
          record x { index = none } ∷ out,
          rw (e1, e2, ready),
          (same, all),
          wait,
          h2,
          omega (arith, lq, l2),
        )

pub find_by_id-lt :
    (id : Text) (n p : ℕ) (q : Queue) → find_by_id id n q ≡ some p → p < n + length q
unfolding find_by_id
find_by_id-lt id n p [] e = absurd cc
find_by_id-lt id n p (m ∷ q) e = ground (arith, find_by_id-lt id (suc n) p q)

pub receive_agreed-none :
    (message : Message) (q : Queue)
    → find_by_id message.id 0 q ≡ none
    → receive_agreed message q ≡ none
unfolding receive_agreed
receive_agreed-none message q gone = rw (gone, receive_agreed)

-- An agreed priority for a message that is in a queue whose messages carry their positions: `ISIS`
-- returns, delivers only deliverable messages, as many as the queue becomes shorter by, and leaves
-- none of them first in the queue; the messages that are left carry their positions.
pub receive_agreed-Delivers :
    (message : Message) (q : Queue) (p : ℕ)
    → find_by_id message.id 0 q ≡ some p
    → PlacedFrom 0 q
    → Delivers q (receive_agreed message q)
unfolding receive_agreed mark_deliverable
receive_agreed-Delivers message q p found h =
    let inside : p < length q = omega (arith, find_by_id-lt message.id 0 p q found) in
    go inside (get_elem?-some q p inside)
  where
    finish :
        (m : Message)
        → get_elem? q p ≡ some m
        → let q1 = set q p (record m { is_deliverable = true }) in
          Keeps (length q1) (update p message.priority q1) → Delivers q (receive_agreed message q)
    finish m e (q2, e2, h2, l2) =
        let (q3, out, e3, all, wait, h3, l3) =
          deliver_ready-Delivers (length q2) q2 (omega arith) h2 in
        (
          q3,
          out,
          rw (found, e, e2, receive_agreed) e3,
          all,
          wait,
          h3,
          omega (arith, l2, l3, length-set q p (record m { is_deliverable = true })),
        )

    go :
        p < length q
        → (m : Message) × (get_elem? q p ≡ some m)
        → Delivers q (receive_agreed message q)
    go inside (m, e) =
        let m1 : Message = record m { is_deliverable = true } in
        finish m e (
          update-Keeps p message.priority (set q p m1) (omega (arith, length-set q p m1))
            (PlacedFrom-set 0 p m1 q h (placed_at 0 p q m h e)))
