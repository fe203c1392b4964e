-- ===== src/Multicast/Isis/First.antt =====
-- multicast-demo/types/multicast.go: the first copy of a message, and the later ones.
use mathlib.Core.List.{Perm}
use dist_sys_demos.Base.{
  ℕ, ◌+◌, ◌<◌, ◌≡◌, ap, ◌∙◌, true, false, Option, none, some, List, [], ◌∷◌, ◌++◌, map, max, arith,
  if◌then◌else◌,
}
use dist_sys_demos.Base.Int.{pos}
use dist_sys_demos.Base.Dict.{lookup-insert_self, lookup, insert}
use dist_sys_demos.Base.Text.{Text, codes, text_eq, text_beq, itoa}
use dist_sys_demos.Multicast.Queue.{Queue, Message, proposed, push, find_by_id}
use dist_sys_demos.Multicast.Queue.Order.{forget}
use dist_sys_demos.Multicast.Queue.Sorted.{IsQueue, push-IsQueue}
use dist_sys_demos.Multicast.Members.{Multicast, Sending, cast_to, has_encoder}
use dist_sys_demos.Multicast.Isis.{relay, receive_initial}
use dist_sys_demos.Multicast.Isis.Sends.{
  heard, heard-append, to_node, to_node-append, copy_for, to_node-relay, heard-relay,
}

abbrev pub sender_node : Message → Text
sender_node message = codes "node" ++ itoa (pos message.sender)

-- What a node proposes for a message.
abbrev pub proposal : Message → ℕ → Option ℕ → Message
proposal message priority index = record message {
  status = proposed;
  priority = priority;
  is_deliverable = false;
  index = index;
}

receive_initial-seen :
    (encs : List Text) (message : Message) (m : Multicast)
    → lookup message.id m.message_check ≡ some true
    → receive_initial encs message m ≡ some (m, [])
unfolding receive_initial
receive_initial-seen encs message m e = rw (e, receive_initial)

pub receive_initial-new :
    (encs : List Text) (message : Message) (m : Multicast) (q1 : Queue)
    → lookup message.id m.message_check ≡ none
    → has_encoder (sender_node message) encs ≡ true
    → let p1 = max m.a m.p + 1 in
      push (record message { status = proposed; priority = p1; is_deliverable = false }) m.pq
        ≡ some q1
      → receive_initial encs message m
        ≡ some (
          record m { message_check = insert message.id true m.message_check; p = p1; pq = q1 },
          relay m.cur_node_id encs message
              ++ (cast_to (sender_node message) (proposal message p1 (find_by_id message.id 0 q1))
                  ∷ []),
        )
unfolding receive_initial
receive_initial-new encs message m q1 fresh known e = rw (fresh, e, known, receive_initial)

-- The first copy of a message, at a node whose queue is a heap that carries its places and that has
-- an encoder for the sender: the copy goes to all other nodes, and the sender is sent a proposal above
-- `A` and above every earlier proposal of the node; nothing else is sent. The proposal is added to the
-- queue, which stays a heap with places and keeps all that it had. Every later copy changes nothing,
-- and nothing is sent.
pub receive_initial-once :
    (encs : List Text) (message later : Message) (m : Multicast)
    → IsQueue m.pq
    → lookup message.id m.message_check ≡ none
    → has_encoder (sender_node message) encs ≡ true
    → later.id ≡ message.id
    → (m1 : Multicast) × (sent : List Sending) × (k : Option ℕ) × (receive_initial encs message m
        ≡ some (m1, sent))
      × ((node : Text)
          → to_node node sent
            ≡ (if text_beq node m.cur_node_id then [] else copy_for node encs message)
              ++ (if text_beq (sender_node message) node then proposal message m1.p k ∷ [] else []))
      × (heard sent ≡ [])
      × (m.a < m1.p)
      × (m.p < m1.p)
      × IsQueue m1.pq
      × Perm (map forget m1.pq) (forget (proposal message m1.p k) ∷ map forget m.pq)
      × (receive_initial encs later m1 ≡ some (m1, []))
receive_initial-once encs message later m v fresh known same =
    let p1 = max m.a m.p + 1 in
    let message1 : Message = record message {
      status = proposed;
      priority = p1;
      is_deliverable = false;
    } in
    let (q1, e, v1, all) = push-IsQueue message1 m.pq v in
    let m1 = record m { message_check = insert message.id true m.message_check; p = p1; pq = q1 } in
    let k = find_by_id message.id 0 q1 in
    let copies_sent = relay m.cur_node_id encs message in
    let answer : List Sending = cast_to (sender_node message) (proposal message p1 k) ∷ [] in
    (
      m1,
      copies_sent ++ answer,
      k,
      receive_initial-new encs message m q1 fresh known e,
      λ node.
          to_node-append node copies_sent answer
          ∙ ap (λ (ms : List Message). ms ++ to_node node answer)
              (to_node-relay node m.cur_node_id encs message),
      heard-append copies_sent answer
          ∙ ap (λ (ms : List Message). ms ++ []) (heard-relay m.cur_node_id encs message),
      omega arith,
      omega arith,
      v1,
      all,
      receive_initial-seen encs later m1 (
          ap (λ i. lookup i m1.message_check) same
          ∙ lookup-insert_self message.id true m.message_check),
    )
