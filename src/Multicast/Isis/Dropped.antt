-- ===== src/Multicast/Isis/Dropped.antt =====
-- multicast-demo/types/multicast.go: the loop over the queue for a failed node keeps the positions.
use dist_sys_demos.Base.{
  ℕ, zero, suc, ◌≡◌, Option, none, some, List, set, get_elem?, get_elem?-lt, arith, Bool-cases,
  Option-cases, inl, inr,
}
use dist_sys_demos.Base.Text.{Text, text_eq, text_beq}
use dist_sys_demos.Multicast.Queue.{proposed_failed, Message, Queue, remove}
use dist_sys_demos.Multicast.Queue.Places.{PlacedFrom, PlacedFrom-set, placed_at}
use dist_sys_demos.Multicast.Queue.Heap.{remove-Takes}
use dist_sys_demos.Multicast.Members.{Sending, is_proposed, drop_failed}

abbrev pub PlacesKept : Option (Queue × List Sending) → Type 0
PlacesKept none = Unit
PlacesKept (some (q1, sent)) = PlacedFrom 0 q1

removed :
    (k : ℕ) (q : Queue) (x : Message)
    → get_elem? q k ≡ some x
    → PlacedFrom 0 q
    → (y : Message) × (q1 : Queue) × (remove k q ≡ some (y, q1)) × PlacedFrom 0 q1
removed k q x e h =
    let (y, q1, ey, e1, h1, l1) = remove-Takes k q (get_elem?-lt q k x e) h in
    (record y { index = none }, q1, e1, h1)

pub drop_failed-Placed :
    (rounds k : ℕ) (n_fail : Text) (encs : List Text) (q : Queue)
    → PlacedFrom 0 q
    → PlacesKept (drop_failed rounds k n_fail encs q)
unfolding drop_failed
drop_failed-Placed zero k n_fail encs q h = h
drop_failed-Placed (suc rounds) k n_fail encs q h = elim (Option-cases (get_elem? q k)) [
  | inl gone ↦ rw (gone, drop_failed) (drop_failed-Placed rounds (suc k) n_fail encs q h)
  | inr (x, e) ↦ elim (Bool-cases (is_proposed x.status)) [
    | inr other ↦ rw (e, other, drop_failed) (drop_failed-Placed rounds (suc k) n_fail encs q h)
    | inl waits ↦ elim (Bool-cases (text_beq x.node_id n_fail)) [
      | inl failed ↦
          let (y, q1, e1, h1) = removed k q x e h in
          rw (e, waits, failed, e1, drop_failed)
            (drop_failed-Placed rounds (suc k) n_fail encs q1 h1)
      | inr alive ↦
          let x1 : Message = record x { status = proposed_failed } in
          let ih =
            drop_failed-Placed rounds (suc k) n_fail encs (set q k x1)
              (PlacedFrom-set 0 k x1 q h (placed_at 0 k q x h e)) in
          rw (e, waits, alive, drop_failed) (ground (arith, ih))
    ]
  ]
]
