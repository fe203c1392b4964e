-- ===== src/Multicast/Isis/Rounds.antt =====
-- multicast-demo/types/multicast.go: what every round of `ISIS` keeps.
use dist_sys_demos.Base.{
  ℕ, ◌+◌, ◌≤◌, ◌≡◌, refl, sym, subst, ◌∙◌, Bool, false, ◌&&◌, Option, none, some, List, [], ◌∷◌,
  ◌++◌, length, max, arith, ◌==◌, Bool-cases, Option-cases, inl, inr,
}
use dist_sys_demos.Base.Dict.{Dict, lookup, insert}
use dist_sys_demos.Base.Text.{Text, text_eq}
use dist_sys_demos.Multicast.Queue.{
  Status, initial, proposed, agreed, proposed_failed, Message, Queue, find_by_id,
}
use dist_sys_demos.Multicast.Queue.Places.{PlacedFrom}
use dist_sys_demos.Multicast.Queue.Heap.{push-Keeps, remove-Takes}
use dist_sys_demos.Multicast.Members.{
  Multicast, Sending, Step, or_zero, is_true, drop_failed, note_failed, receive,
}
use dist_sys_demos.Multicast.Isis.{
  receive_initial, agree, receive_failed, drop_message, count_proposal, receive_proposed, dispatch,
  isis,
}
use dist_sys_demos.Multicast.Isis.Delivery.{
  find_by_id-lt, receive_agreed-Delivers, receive_agreed-none,
}
use dist_sys_demos.Multicast.Isis.Dropped.{PlacesKept, drop_failed-Placed}

-- What a step keeps, if it returns: `A`, a lower bound of `P`, and the positions of the messages.
abbrev pub Goes : Multicast → Step → Type 0
Goes m none = Unit
Goes m (some (m1, sent)) = (m1.a ≡ m.a) × (m.p ≤ m1.p) × PlacedFrom 0 m1.pq

Goes-trans :
    (m m1 : Multicast) (sent : List Sending) (r : Step)
    → m1.a ≡ m.a
    → m.p ≤ m1.p
    → Goes m1 r
    → Goes m (elim r [ none ↦ none | some (m2, more) ↦ some (m2, sent ++ more) ])
Goes-trans m m1 sent none ea ep g = tt
Goes-trans m m1 sent (some (m2, more)) ea ep g = (g.0 ∙ ea, omega (arith, g.1), g.2)

note_failed-Goes :
    (nodes : Dict Text Bool) (encs : List Text) (m : Multicast)
    → PlacedFrom 0 m.pq
    → Goes m (note_failed nodes encs m)
unfolding note_failed
note_failed-Goes [] encs m h = (refl, omega arith, h)
note_failed-Goes ((n_fail, f) ∷ nodes) encs m h =
    elim (Bool-cases (f && (or_zero (lookup n_fail m.message_n_check) == 0))) [
      | inr known ↦ rw (known, note_failed) (note_failed-Goes nodes encs m h)
      | inl new ↦
          rw (new, note_failed)
            (go (drop_failed (length m.pq) 0 n_fail encs m.pq)
              (drop_failed-Placed (length m.pq) 0 n_fail encs m.pq h)
              (λ q1 k.
                note_failed-Goes nodes encs
                  (record m { message_n_check = insert n_fail 1 m.message_n_check; pq = q1 }) k))
    ]
  where
    go :
        (r : Option (Queue × List Sending))
        → PlacesKept r
        → ((q1 : Queue)
            → PlacedFrom 0 q1
            → Goes m (
                note_failed nodes encs
                  (record m { message_n_check = insert n_fail 1 m.message_n_check; pq = q1 })))
        → Goes m (elim r [
          | none ↦ none
          | some (q1, sent) ↦
              elim (note_failed nodes encs
                (record m { message_n_check = insert n_fail 1 m.message_n_check; pq = q1 })) [
                  | none ↦ none
                  | some (m1, more) ↦ some (m1, sent ++ more)
                ]
        ])
    go none k ih = tt
    go (some (q1, sent)) k ih =
        let m1 = record m { message_n_check = insert n_fail 1 m.message_n_check; pq = q1 } in
        Goes-trans m m1 sent (note_failed nodes encs m1) refl (omega arith) (ih q1 k)

receive_initial-Goes :
    (encs : List Text) (message : Message) (m : Multicast)
    → PlacedFrom 0 m.pq
    → Goes m (receive_initial encs message m)
unfolding receive_initial
receive_initial-Goes encs message m h =
    let message1 : Message = record message {
      status = proposed;
      priority = max m.a m.p + 1;
      is_deliverable = false;
    } in
    let (q1, e, h1, l1) = push-Keeps message1 m.pq h in ground (arith, e)

agree-Goes :
    (encs : List Text) (message : Message) (n : ℕ) (m : Multicast)
    → PlacedFrom 0 m.pq
    → Goes m (some (agree encs message n m))
unfolding agree
agree-Goes encs message n m h = (refl, omega arith, h)

receive_failed-Goes :
    (encs : List Text) (message : Message) (m : Multicast)
    → PlacedFrom 0 m.pq
    → Goes m (some (receive_failed encs message m))
unfolding receive_failed agree
receive_failed-Goes encs message m h = ground (arith)

count_proposal-Goes :
    (encs : List Text) (message : Message) (m : Multicast)
    → PlacedFrom 0 m.pq
    → Goes m (some (count_proposal encs message m))
unfolding count_proposal agree
count_proposal-Goes encs message m h = ground (arith)

drop_message-Goes :
    (message : Message) (m : Multicast)
    → PlacedFrom 0 m.pq
    → (m1 : Multicast) × (drop_message message m ≡ some m1)
      × (m1.a ≡ m.a)
      × (m1.p ≡ m.p)
      × PlacedFrom 0 m1.pq
unfolding drop_message
drop_message-Goes message m h = elim (Bool-cases (is_true (lookup message.node_id m.nfail_check))) [
  | inr alive ↦ (m, rw alive, refl, refl, h)
  | inl failed ↦ elim (Option-cases (find_by_id message.id 0 m.pq)) [
    | inl gone ↦ (m, rw (failed, gone, drop_message), refl, refl, h)
    | inr (place, e) ↦
        let (y, q1, ey, e1, h1, l1) =
          remove-Takes place m.pq (omega (arith, find_by_id-lt message.id 0 place m.pq e)) h in
        (record m { pq = q1 }, rw (failed, e, e1, drop_message), refl, refl, h1)
  ]
]

receive_proposed-some :
    (encs : List Text) (message : Message) (m m1 : Multicast)
    → drop_message message m ≡ some m1
    → receive_proposed encs message m ≡ some (count_proposal encs message m1)
unfolding receive_proposed
receive_proposed-some encs message m m1 e = rw (e, receive_proposed)

receive_proposed-Goes :
    (encs : List Text) (message : Message) (m : Multicast)
    → PlacedFrom 0 m.pq
    → Goes m (receive_proposed encs message m)
receive_proposed-Goes encs message m h =
    let (m1, e, ea, ep, h1) = drop_message-Goes message m h in
    let g = count_proposal-Goes encs message m1 h1 in
    subst (Goes m) (sym (receive_proposed-some encs message m m1 e))
      (g.0 ∙ ea, omega (arith, g.1, ep), g.2)

dispatch-Goes :
    (status : Status) (encs : List Text) (message : Message) (m : Multicast)
    → PlacedFrom 0 m.pq
    → Goes m (dispatch status encs message m)
unfolding dispatch
dispatch-Goes initial encs message m h = receive_initial-Goes encs message m h
dispatch-Goes proposed encs message m h = receive_proposed-Goes encs message m h
dispatch-Goes proposed_failed encs message m h = receive_failed-Goes encs message m h
dispatch-Goes agreed encs message m h = elim (Option-cases (find_by_id message.id 0 m.pq)) [
  | inl gone ↦ rw (receive_agreed-none message m.pq gone, dispatch) tt
  | inr (place, e) ↦
      let (q1, out, e1, all, wait, h1, l1) = receive_agreed-Delivers message m.pq place e h in
      rw (e1, dispatch) (refl, omega arith, h1)
]

isis-Goes :
    (encs : List Text) (message : Message) (m : Multicast)
    → PlacedFrom 0 m.pq
    → Goes m (isis encs message m)
unfolding isis
isis-Goes encs message m h =
    go (note_failed m.nfail_check encs m) (note_failed-Goes m.nfail_check encs m h)
      (λ m1 k. dispatch-Goes message.status encs message m1 k)
  where
    go :
        (r : Step)
        → Goes m r
        → ((m1 : Multicast)
            → PlacedFrom 0 m1.pq
            → Goes m1 (dispatch message.status encs message m1))
        → Goes m (elim r [
          | none ↦ none
          | some (m1, sent) ↦ elim (dispatch message.status encs message m1) [
            | none ↦ none
            | some (m2, more) ↦ some (m2, sent ++ more)
          ]
        ])
    go none g next = tt
    go (some (m1, sent)) g next =
        Goes-trans m m1 sent (dispatch message.status encs message m1) g.0 g.1 (next m1 g.2)

-- The states that a node goes through: rounds of `ISIS`, and reads that fail, which may come at any
-- time.
pub data Reach (encs : List Text) (m : Multicast) : Multicast → Type 0 where
  here : Reach encs m m
  round :
      {m1 m2 : Multicast} (message : Message) (sent : List Sending)
      → Reach encs m m1
      → isis encs message m1 ≡ some (m2, sent)
      → Reach encs m m2
  fails : {m1 : Multicast} (node : Text) → Reach encs m m1 → Reach encs m (receive node none m1).0

Goes-some :
    (m m1 : Multicast) (sent : List Sending) (r : Step)
    → r ≡ some (m1, sent)
    → Goes m r
    → (m1.a ≡ m.a) × (m.p ≤ m1.p) × PlacedFrom 0 m1.pq
Goes-some m m1 sent r e g = subst (Goes m) e g

-- In every state that a node reaches from one whose queue is in order of places, `A` is what it was
-- at first, `P` has not fallen, and every message in the queue carries its place.
pub Reach-kept :
    (encs : List Text) {m m1 : Multicast}
    → PlacedFrom 0 m.pq
    → Reach encs m m1
    → (m1.a ≡ m.a) × (m.p ≤ m1.p) × PlacedFrom 0 m1.pq
unfolding receive
Reach-kept encs h here = (refl, omega arith, h)
Reach-kept encs h (round {m1} {m2} message sent r e) =
    let (ea, ep, hp) = Reach-kept encs h r in
    let (ea1, ep1, hp1) =
      Goes-some m1 m2 sent (isis encs message m1) e (isis-Goes encs message m1 hp) in
    (ea1 ∙ ea, omega arith, hp1)
Reach-kept encs h (fails node r) = Reach-kept encs h r
