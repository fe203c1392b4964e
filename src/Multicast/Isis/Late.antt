-- ===== src/Multicast/Isis/Late.antt =====
-- multicast-demo/types/multicast.go: a proposal after an agreement.
use dist_sys_demos.Base.{ℕ, ◌+◌, ◌<◌, ◌≡◌, true, Option, none, some, List, [], ◌∷◌, ◌++◌, max}
use dist_sys_demos.Base.Dict.{lookup, insert}
use dist_sys_demos.Base.Text.{Text, text_eq}
use dist_sys_demos.Multicast.Queue.{Message, agreed, find_by_id}
use dist_sys_demos.Multicast.Queue.Sorted.{IsQueue}
use dist_sys_demos.Multicast.Queue.Heap.{push-Keeps}
use dist_sys_demos.Multicast.Members.{Multicast, cast_to, has_encoder}
use dist_sys_demos.Multicast.Isis.{relay, receive_initial, listens, dispatch}
use dist_sys_demos.Multicast.Isis.Order.{receive_agreed-InOrder}
use dist_sys_demos.Multicast.Isis.First.{sender_node, proposal, receive_initial-new}

-- A node learns that a message of its queue has a priority that is more than one above `A` and `P`,
-- and delivers what it can. For a message that it then sees for the first time it proposes a smaller
-- priority: the agreed priority is noted nowhere.
pub dispatch-lower_proposal :
    (encs : List Text) (message later : Message) (m : Multicast) (place : ℕ)
    → IsQueue m.pq
    → find_by_id message.id 0 m.pq ≡ some place
    → max m.a m.p + 1 < message.priority
    → lookup later.id m.message_check ≡ none
    → has_encoder (sender_node later) encs ≡ true
    → (m1 : Multicast) × (out : List Message) × (dispatch agreed encs message m
        ≡ some (m1, listens out))
      × (m2 : Multicast) × (priority : ℕ) × (k : Option ℕ) × (receive_initial encs later m1
          ≡ some (
            m2,
            relay m1.cur_node_id encs later
                ++ (cast_to (sender_node later) (proposal later priority k) ∷ []),
          ))
      × (priority < message.priority)
unfolding dispatch
dispatch-lower_proposal encs message later m place v found high fresh known =
    let (q1, out, e1, v1, sorted, same) = receive_agreed-InOrder message m.pq place found v in
    let m1 = record m { pq = q1 } in
    let p1 = max m.a m.p + 1 in
    let (q2, e2, h2, l2) = push-Keeps (proposal later p1 later.index) q1 v1.placed in
    (
      m1,
      out,
      rw (e1, dispatch),
      record m1 { message_check = insert later.id true m.message_check; p = p1; pq = q2 },
      p1,
      find_by_id later.id 0 q2,
      receive_initial-new encs later m1 q2 fresh known e2,
      high,
    )
