-- ===== src/Multicast/Isis/Once.antt =====
-- multicast-demo/types/multicast.go: a message is delivered at most once.
pub mod Dropping
pub mod Rounds
use dist_sys_demos.Base.{
  ℕ, ◌+◌, ◌≤◌, ◌≡◌, refl, sym, ap, subst, ◌∙◌, Bool, true, false, ◌&&◌, Option, none, some, List,
  [], ◌∷◌, ◌++◌, length, max, arith, ◌==◌, if◌then◌else◌, Bool-cases, Option-cases, inl, inr,
}
use dist_sys_demos.Base.Dict.{Dict, lookup, insert, lookup-insert}
use dist_sys_demos.Base.Int.{pos}
use dist_sys_demos.Base.Text.{Text, codes, itoa, text_eq, text_beq, text_beq_iff}
use dist_sys_demos.Multicast.Queue.{
  Status, initial, proposed, agreed, proposed_failed, Message, Queue, find_by_id, push,
}
use dist_sys_demos.Multicast.Queue.Order.{at}
use dist_sys_demos.Multicast.Queue.Sorted.{IsQueue, push-IsQueue}
use dist_sys_demos.Multicast.Queue.Removal.{remove-TakesOut}
use dist_sys_demos.Multicast.Queue.Copies.{
  copies, copies-nil, copies-append, copies-same, copies-more, copies-fewer,
}
use dist_sys_demos.Multicast.Members.{
  Multicast, Sending, cast_to, listen, Step, or_zero, is_true, has, cast, has_encoder, drop_failed,
  note_failed, receive,
}
use dist_sys_demos.Multicast.Isis.{
  relay, pushed, listens, receive_initial, agree, receive_failed, drop_message, raise_proposal,
  count_proposal, receive_proposed, dispatch, isis,
}
use dist_sys_demos.Multicast.Isis.Sends.{heard, heard-append}
use dist_sys_demos.Multicast.Isis.Delivery.{find_by_id-lt, receive_agreed-none}
use dist_sys_demos.Multicast.Isis.Order.{settled, receive_agreed-InOrder}

heard-listens : (ms : List Message) → heard (listens ms) ≡ ms
heard-listens [] = refl
heard-listens (m ∷ ms) = ap (λ l. m ∷ l) (heard-listens ms)

heard-cast :
    (nfail_check : Dict Text Bool) (encs : List Text) (m : Message)
    → heard (cast nfail_check encs m) ≡ []
unfolding cast
heard-cast nfail_check [] m = refl
heard-cast nfail_check (k ∷ encs) m = elim (Bool-cases (is_true (lookup k nfail_check))) [
  | inl failed ↦ rw failed (heard-cast nfail_check encs m)
  | inr alive ↦ rw alive (heard-cast nfail_check encs m)
]

heard-relay : (cur : Text) (encs : List Text) (m : Message) → heard (relay cur encs m) ≡ []
heard-relay cur [] m = refl
heard-relay cur (k ∷ encs) m = elim (Bool-cases (text_beq k cur)) [
  | inl self ↦ rw self (heard-relay cur encs m)
  | inr other ↦ rw other (heard-relay cur encs m)
]

-- Whether the node has received a first copy of the message.
abbrev pub known : Text → Multicast → ℕ
known id m = if has (lookup id m.message_check) then 1 else 0

-- The messages that are delivered and those that are left are no more than those that were there and
-- those that are new.
abbrev pub Moves : Multicast → Step → Type 0
Moves m none = Unit
Moves m (some (m1, sent)) =
    IsQueue m1.pq
    × ((id : Text)
        → copies id (heard sent) + copies id m1.pq + known id m ≤ copies id m.pq + known id m1)

pub Moves-trans :
    (m m1 : Multicast) (sent : List Sending) (r : Step)
    → Moves m (some (m1, sent))
    → Moves m1 r
    → Moves m (elim r [ none ↦ none | some (m2, more) ↦ some (m2, sent ++ more) ])
Moves-trans m m1 sent none h k = tt
Moves-trans m m1 sent (some (m2, more)) (v, h) (w, k) = (
  w,
  λ id.
      rw (heard-append sent more)
        (omega (arith, h id, k id, copies-append id (heard sent) (heard more))),
)

-- A step that sends nothing to the application and has no new message.
pub Moves-quiet :
    (m m1 : Multicast) (sent : List Sending)
    → IsQueue m1.pq
    → heard sent ≡ []
    → m1.message_check ≡ m.message_check
    → ((id : Text) → copies id m1.pq ≤ copies id m.pq)
    → Moves m (some (m1, sent))
Moves-quiet m m1 sent v quiet same fewer =
    (v, λ id. rw (quiet, same) (omega (arith, fewer id, copies-nil id)))

receive_initial-Moves :
    (encs : List Text) (message : Message) (m : Multicast)
    → IsQueue m.pq
    → Moves m (receive_initial encs message m)
unfolding receive_initial
receive_initial-Moves encs message m v =
    elim (Bool-cases (has (lookup message.id m.message_check))) [
      | inl seen ↦ rw (seen, Moves) (Moves-quiet m m [] v refl refl (λ id. omega arith))
      | inr new ↦
          let message1 : Message = record message {
            status = proposed;
            priority = max m.a m.p + 1;
            is_deliverable = false;
          } in
          let (q1, e, w, same) = push-IsQueue message1 m.pq v in
          let node_id = codes "node" ++ itoa (pos message.sender) in
          elim (Bool-cases (has_encoder node_id encs)) [
            | inr missing ↦ rw (new, e, missing, Moves) tt
            | inl there ↦
                rw (new, e, there, Moves)
                  (
                    w,
                    λ id.
                        rw
                          (
                            heard-append (relay m.cur_node_id encs message)
                                (cast_to node_id (pushed message1 q1) ∷ []),
                            heard-relay m.cur_node_id encs message,
                          )
                          (ground (
                            arith,
                            copies-nil id,
                            copies-more id message1 q1 m.pq same,
                            lookup-insert message.id id true m.message_check,
                            text_beq_iff message.id id,
                            new,
                          )),
                  )
          ]
    ]

heard-if :
    (b : Bool) (nfail_check : Dict Text Bool) (encs : List Text) (m : Message)
    → heard (if b then cast nfail_check encs m else []) ≡ []
heard-if true nfail_check encs m = heard-cast nfail_check encs m
heard-if false nfail_check encs m = refl

agree-Moves :
    (encs : List Text) (message : Message) (n : ℕ) (m : Multicast)
    → IsQueue m.pq
    → Moves m (some (agree encs message n m))
unfolding agree
agree-Moves encs message n m v =
    let (m1, sent) = agree encs message n m in
    Moves-quiet m m1 sent v (heard-if (n + 1 == m1.alive_nodes) m.nfail_check encs _) refl
      (λ id. omega arith)

receive_failed-Moves :
    (encs : List Text) (message : Message) (m : Multicast)
    → IsQueue m.pq
    → Moves m (some (receive_failed encs message m))
unfolding receive_failed
receive_failed-Moves encs message m v =
    elim (Bool-cases (has (lookup message.id m.message_n_check))) [
      | inl again ↦ rw (again, Moves) (Moves-quiet m m [] v refl refl (λ id. omega arith))
      | inr new ↦
          rw (new, Moves)
            (agree-Moves encs message (or_zero (lookup message.id m.repliers))
              (record m { message_n_check = insert message.id 1 m.message_n_check }) v)
    ]

count_proposal-Moves :
    (encs : List Text) (message : Message) (m : Multicast)
    → IsQueue m.pq
    → Moves m (some (count_proposal encs message m))
unfolding count_proposal
count_proposal-Moves encs message m v =
    let m1 : Multicast = record m {
      proposals = raise_proposal message.id message.priority m.proposals;
    } in
    elim (Option-cases (lookup message.id m.repliers)) [
      | inl first ↦
          rw (first, count_proposal, Moves)
            (Moves-quiet m (record m1 { repliers = insert message.id 1 m.repliers }) [] v refl refl
              (λ id. omega arith))
      | inr (n, later) ↦
          rw (later, count_proposal, Moves)
            (agree-Moves encs message n
              (record m1 { repliers = insert message.id (n + 1) m.repliers }) v)
    ]

drop_message-Moves :
    (message : Message) (m : Multicast)
    → IsQueue m.pq
    → (m1 : Multicast) × (drop_message message m ≡ some m1) × Moves m (some (m1, []))
unfolding drop_message
drop_message-Moves message m v =
    elim (Bool-cases (is_true (lookup message.node_id m.nfail_check))) [
      | inr alive ↦ (m, rw alive, Moves-quiet m m [] v refl refl (λ id. omega arith))
      | inl failed ↦ elim (Option-cases (find_by_id message.id 0 m.pq)) [
        | inl gone ↦
            (m, rw (failed, gone, drop_message), Moves-quiet m m [] v refl refl (λ id. omega arith))
        | inr (place, e) ↦
            let (q1, e1, w, same) =
              remove-TakesOut place m.pq v
                (omega (arith, find_by_id-lt message.id 0 place m.pq e)) in
            let m1 : Multicast = record m { pq = q1 } in
            (
              m1,
              rw (failed, e, e1, drop_message),
              Moves-quiet m m1 [] w refl refl (λ id. copies-fewer id (at m.pq place) q1 m.pq same),
            )
      ]
    ]

receive_proposed-Moves :
    (encs : List Text) (message : Message) (m : Multicast)
    → IsQueue m.pq
    → Moves m (receive_proposed encs message m)
unfolding receive_proposed
receive_proposed-Moves encs message m v =
    let (m1, e, h) = drop_message-Moves message m v in
    rw (e, receive_proposed)
      (Moves-trans m m1 [] (some (count_proposal encs message m1)) h
        (count_proposal-Moves encs message m1 h.0))

pub dispatch-Moves :
    (status : Status) (encs : List Text) (message : Message) (m : Multicast)
    → IsQueue m.pq
    → Moves m (dispatch status encs message m)
unfolding dispatch
dispatch-Moves initial encs message m v = receive_initial-Moves encs message m v
dispatch-Moves proposed encs message m v = receive_proposed-Moves encs message m v
dispatch-Moves proposed_failed encs message m v = receive_failed-Moves encs message m v
dispatch-Moves agreed encs message m v = elim (Option-cases (find_by_id message.id 0 m.pq)) [
  | inl gone ↦ rw (receive_agreed-none message m.pq gone, Moves) tt
  | inr (place, e) ↦
      let (q1, out, e1, w, sorted, same) = receive_agreed-InOrder message m.pq place e v in
      rw (e1, Moves)
        (
          w,
          λ id. rw (heard-listens out) (
              omega (
                arith,
                copies-same id (at m.pq place) (settled (at m.pq place) message.priority)
                    (out ++ q1) m.pq same,
                copies-append id out q1,
              )),
        )
]
