-- ===== src/Multicast/Isis/Tests.antt =====
-- A node of two, and the theorems on the protocol at it.
use mathlib.Core.List.Perm
use mathlib.Core.List.{Perm}
use dist_sys_demos.Base.{
  ℕ, ◌+◌, ◌<◌, ◌≤◌, ◌≡◌, refl, arith, true, false, Option, none, some, List, [], ◌∷◌, ◌++◌, map,
  if◌then◌else◌,
}
use dist_sys_demos.Base.Dict.{lookup}
use dist_sys_demos.Base.Text.{Text, codes, text_eq, text_beq, text_beq_iff}
use dist_sys_demos.Multicast.Queue.{Message, Queue, initial, agreed, find_by_id}
use dist_sys_demos.Multicast.Queue.Order.{at, forget}
use dist_sys_demos.Multicast.Queue.Sorted.{IsQueue}
use dist_sys_demos.Multicast.Queue.Tests.{first, queue, queue-IsQueue}
use dist_sys_demos.Multicast.Members.{Multicast, Sending, cast_to, has_encoder, note_failed}
use dist_sys_demos.Multicast.Isis.{relay, receive_initial, receive_agreed, listens, dispatch, isis}
use dist_sys_demos.Multicast.Isis.Order.{InOrder, settled, receive_agreed-InOrder}
use dist_sys_demos.Multicast.Isis.Proposals.{agreement, count_proposals, count_proposals-agreed}
use dist_sys_demos.Multicast.Isis.First.{sender_node, proposal, receive_initial-once}
use dist_sys_demos.Multicast.Isis.Late.{dispatch-lower_proposal}
use dist_sys_demos.Multicast.Isis.Failures.{isis-dropped}
use dist_sys_demos.Multicast.Queue.Copies.{copies}
use dist_sys_demos.Multicast.Isis.Sends.{heard, to_node, copy_for, has_failed}
use dist_sys_demos.Multicast.Isis.Once.{known}
use dist_sys_demos.Multicast.Isis.Once.Rounds.{Heard, Heard-once}

abbrev reply : Message
reply = record first { status = agreed; priority = 3 }

reply-found : find_by_id reply.id 0 queue ≡ some 0
unfolding find_by_id text_beq
reply-found = refl

receive_agreed-InOrder_example :
    (q1 : Queue) × (out : List Message) × (receive_agreed reply queue ≡ some (q1, out))
    × IsQueue q1
    × InOrder out q1
    × Perm
        (forget (at queue 0) ∷ map forget (out ++ q1))
        (settled (at queue 0) 3 ∷ map forget queue)
receive_agreed-InOrder_example = receive_agreed-InOrder reply queue 0 reply-found queue-IsQueue

abbrev node : Multicast
node = record {
  a = 0;
  p = 4;
  cur_node_id = codes "node1";
  alive_nodes = 2;
  nfail_check = (codes "node1", false) ∷ (codes "node2", false) ∷ [];
  message_check = [];
  message_n_check = [];
  pq = queue;
  proposals = [];
  repliers = [];
}

abbrev encs : List Text
encs = codes "node1" ∷ codes "node2" ∷ []

-- The replies of both nodes.
abbrev own_reply : Message
own_reply = record first { r_node_id = codes "node1" }

abbrev other_reply : Message
other_reply = record first { r_node_id = codes "node2"; priority = 6 }

count_proposals-agreed_example :
    let sent = (count_proposals encs (own_reply ∷ other_reply ∷ []) node).1 in
    ((k : Text)
      → to_node k sent
        ≡ (if has_failed k node.nfail_check then [] else copy_for k encs (agreement other_reply 6)))
    × (heard sent ≡ [])
unfolding lookup
count_proposals-agreed_example =
    count_proposals-agreed encs own_reply other_reply [] node (refl, tt) refl refl (Perm.refl _)

abbrev fresh : Message
fresh = record first { id = codes "w"; status = initial }

fresh-known : has_encoder (sender_node fresh) (sender_node fresh ∷ []) ≡ true
fresh-known = rw ((text_beq_iff (sender_node fresh) (sender_node fresh)).1 refl) refl

receive_initial-once_example :
    (m1 : Multicast) × (sent : List Sending) × (k : Option ℕ) × (receive_initial
        (sender_node fresh ∷ [])
        fresh
        node
      ≡ some (m1, sent))
    × ((k1 : Text)
        → to_node k1 sent
          ≡ (if text_beq k1 node.cur_node_id
              then []
              else copy_for k1 (sender_node fresh ∷ []) fresh)
            ++ (if text_beq (sender_node fresh) k1 then proposal fresh m1.p k ∷ [] else []))
    × (heard sent ≡ [])
    × (node.a < m1.p)
    × (node.p < m1.p)
    × IsQueue m1.pq
    × Perm (map forget m1.pq) (forget (proposal fresh m1.p k) ∷ map forget node.pq)
    × (receive_initial (sender_node fresh ∷ []) fresh m1 ≡ some (m1, []))
unfolding lookup
receive_initial-once_example =
    receive_initial-once (sender_node fresh ∷ []) fresh fresh node queue-IsQueue refl fresh-known
      refl

-- The node itself is alive, and the sender of the only message has failed.
abbrev failing : Multicast
failing = record node {
  cur_node_id = codes "node2";
  nfail_check = (codes "node2", false) ∷ (first.node_id, true) ∷ (codes "node3", false) ∷ [];
  message_n_check = (codes "node2", 0) ∷ (first.node_id, 0) ∷ (codes "node3", 0) ∷ [];
  pq = first ∷ [];
}

isis-dropped_example : isis encs reply failing ≡ none
unfolding lookup text_beq
isis-dropped_example =
    isis-dropped encs ((codes "node2", false) ∷ []) ((codes "node3", false) ∷ []) first reply
      failing refl (refl, tt) refl refl (refl, tt) refl refl

-- An agreement on 9, and then a message that the node has not seen.
abbrev high : Message
high = record first { status = agreed; priority = 9 }

dispatch-lower_proposal_example :
    (m1 : Multicast) × (out : List Message) × (dispatch agreed (sender_node fresh ∷ []) high node
      ≡ some (m1, listens out))
    × (m2 : Multicast) × (priority : ℕ) × (k : Option ℕ) × (receive_initial
          (sender_node fresh ∷ [])
          fresh
          m1
        ≡ some (
          m2,
          relay m1.cur_node_id (sender_node fresh ∷ []) fresh
              ++ (cast_to (sender_node fresh) (proposal fresh priority k) ∷ []),
        ))
    × (priority < 9)
unfolding lookup
dispatch-lower_proposal_example =
    dispatch-lower_proposal (sender_node fresh ∷ []) high fresh node 0 queue-IsQueue reply-found
      (omega arith) refl fresh-known

-- The node has received the three messages of its queue.
abbrev received : Multicast
received = record node {
  message_check = (codes "x", true) ∷ (codes "y", true) ∷ (codes "z", true) ∷ [];
}

received-once : (id : Text) → copies id received.pq ≤ known id received
unfolding copies lookup text_beq
received-once id =
    ground
      (arith, text_beq_iff (codes "x") id, text_beq_iff (codes "y") id, text_beq_iff (codes "z") id)

-- The agreement on the first message makes the node deliver.
Heard-once_example :
    (out : List Message) × (m1 : Multicast) × Heard encs received out m1
    × (copies (codes "x") out + copies (codes "x") m1.pq ≤ 1)
    × (lookup (codes "x") m1.message_check ≡ none → copies (codes "x") out ≡ 0)
unfolding isis note_failed dispatch
Heard-once_example =
    let (q1, out, e1, v1, sorted, same) =
      receive_agreed-InOrder reply queue 0 reply-found queue-IsQueue in
    let m1 : Multicast = record received { pq = q1 } in
    let ran : isis encs reply received ≡ some (m1, listens out) = rw (e1, isis) refl in
    let r : Heard encs received (heard (listens out)) m1 =
      Heard.round [] received m1 reply (listens out) Heard.here ran in
    let (once, unseen) = Heard-once (codes "x") queue-IsQueue received-once r in
    (heard (listens out), m1, r, once, unseen)
