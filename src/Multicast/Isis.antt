-- ===== src/Multicast/Isis.antt =====
-- multicast-demo/types/multicast.go: a round of `ISIS`, with one function for each branch. A map of
-- encoders is the list of its keys, in the order of an iteration. `none` is a panic: an index out of
-- range, a missing encoder, or a message that is not in the queue.
pub mod Sends
pub mod Delivery
pub mod Proposals
pub mod Failures
pub mod First
pub mod Dropped
pub mod Rounds
pub mod Once
pub mod Order
pub mod Late
mod Tests
use dist_sys_demos.Base.{
  ℕ, zero, suc, ◌+◌, Bool, true, false, ◌&&◌, not, Option, none, some, List, [], ◌∷◌, ◌++◌, length,
  set, get_elem?, max, ltb, ◌==◌, if◌then◌else◌,
}
use dist_sys_demos.Base.Int.{pos}
use dist_sys_demos.Base.Dict.{Dict, lookup, insert}
use dist_sys_demos.Base.Text.{Text, codes, text_eq, text_beq, itoa}
use dist_sys_demos.Multicast.Queue.{
  Status, initial, proposed, agreed, proposed_failed, Message, Queue, push, pop, find_by_id, update,
  remove,
}
use dist_sys_demos.Multicast.Members.{
  Multicast, Sending, cast_to, listen, Step, is_true, or_zero, has, cast, receive, has_encoder,
  is_proposed, drop_failed, note_failed,
}

abbrev pub relay : Text → List Text → Message → List Sending
relay cur [] message = []
relay cur (k ∷ encs) message =
    let rest = relay cur encs message in if text_beq k cur then rest else cast_to k message ∷ rest

-- The message that has just been pushed: the heap has set its index to its place.
abbrev pub pushed : Message → Queue → Message
pushed message q = record message { index = find_by_id message.id 0 q }

-- The branch for "i": the first copy of a message is passed on to the other nodes, and its sender is
-- sent a proposal.
pub receive_initial : List Text → Message → Multicast → Step
receive_initial encs message m =
    if has (lookup message.id m.message_check)
    then some (m, [])
    else let p1 = max m.a m.p + 1 in
      let message1 : Message = record message {
        status = proposed;
        priority = p1;
        is_deliverable = false;
      } in
      let node_id = codes "node" ++ itoa (pos message.sender) in
      elim (push message1 m.pq) [
        | none ↦ none
        | some q1 ↦
            if has_encoder node_id encs
            then some (
              record m { message_check = insert message.id true m.message_check; p = p1; pq = q1 },
              relay m.cur_node_id encs message ++ (cast_to node_id (pushed message1 q1) ∷ []),
            )
            else none
      ]

-- The nodes that have not failed.
pub count_alive : Dict Text Bool → ℕ
count_alive [] = 0
count_alive ((k, f) ∷ nodes) = let n = count_alive nodes in if f then n else suc n

-- The end of the branches "p" and "pf": with a reply from every node that is alive, the priority is
-- agreed.
pub agree : List Text → Message → ℕ → Multicast → Multicast × List Sending
unfolding count_alive
agree encs message num_of_reply m =
    let m1 = record m { alive_nodes = count_alive m.nfail_check } in
    (
      m1,
      if num_of_reply + 1 == m1.alive_nodes
          then cast m1.nfail_check encs (record message {
            status = agreed;
            priority = or_zero (lookup message.id m1.proposals);
          })
          else [],
    )

-- The branch for "pf": a proposal that is sent again, once for each message.
pub receive_failed : List Text → Message → Multicast → Multicast × List Sending
unfolding agree
receive_failed encs message m =
    if has (lookup message.id m.message_n_check)
    then (m, [])
    else agree encs message (or_zero (lookup message.id m.repliers))
        (record m { message_n_check = insert message.id 1 m.message_n_check })

-- The message of a sender that has failed is dropped from the queue.
pub drop_message : Message → Multicast → Option Multicast
drop_message message m =
    if is_true (lookup message.node_id m.nfail_check)
    then elim (find_by_id message.id 0 m.pq) [
      | none ↦ some m
      | some place ↦ elim (remove place m.pq) [
        | none ↦ none
        | some (x, q1) ↦ some (record m { pq = q1 })
      ]
    ]
    else some m

-- The largest proposal for a message so far, with a new one.
pub raise_proposal : Text → ℕ → Dict Text ℕ → Dict Text ℕ
raise_proposal id priority proposals = elim (lookup id proposals) [
  | none ↦ insert id priority proposals
  | some old ↦ if ltb old priority then insert id priority proposals else proposals
]

-- The branch for "p", once the message of a failed sender has been dropped. The first reply is only
-- counted.
pub count_proposal : List Text → Message → Multicast → Multicast × List Sending
unfolding raise_proposal agree
count_proposal encs message m =
    let m1 = record m { proposals = raise_proposal message.id message.priority m.proposals } in
    elim (lookup message.id m.repliers) [
      | none ↦ (record m1 { repliers = insert message.id 1 m.repliers }, [])
      | some num_of_reply ↦
          agree encs message num_of_reply
            (record m1 { repliers = insert message.id (num_of_reply + 1) m.repliers })
    ]

pub receive_proposed : List Text → Message → Multicast → Step
receive_proposed encs message m = elim (drop_message message m) [
  | none ↦ none
  | some m1 ↦ some (count_proposal encs message m1)
]

-- The loop that delivers while the first message is deliverable, with its rounds.
pub deliver_ready : ℕ → Queue → Option (Queue × List Message)
deliver_ready zero q = some (q, [])
deliver_ready (suc rounds) q = elim (get_elem? q 0) [
  | none ↦ some (q, [])
  | some m ↦
      if m.is_deliverable
      then elim (pop q) [
        | none ↦ none
        | some (x, q1) ↦ elim (deliver_ready rounds q1) [
          | none ↦ none
          | some (q2, out) ↦ some (q2, x ∷ out)
        ]
      ]
      else some (q, [])
]

-- `oldMessage.IsDeliverable = true`
pub mark_deliverable : ℕ → Queue → Option Queue
mark_deliverable p q = elim (get_elem? q p) [
  | none ↦ none
  | some m ↦ some (set q p (record m { is_deliverable = true }))
]

-- The last branch of `ISIS`, on the queue. A message that is not in the queue makes it panic.
pub receive_agreed : Message → Queue → Option (Queue × List Message)
receive_agreed message q = elim (find_by_id message.id 0 q) [
  | none ↦ none
  | some p ↦ elim (mark_deliverable p q) [
    | none ↦ none
    | some q1 ↦ elim (update p message.priority q1) [
      | none ↦ none
      | some q2 ↦ deliver_ready (length q2) q2
    ]
  ]
]

abbrev pub listens : List Message → List Sending
listens [] = []
listens (m ∷ ms) = listen m ∷ listens ms

-- The branches, by the message's status.
pub dispatch : Status → List Text → Message → Multicast → Step
dispatch initial encs message m = receive_initial encs message m
dispatch proposed_failed encs message m = some (receive_failed encs message m)
dispatch proposed encs message m = receive_proposed encs message m
dispatch agreed encs message m = elim (receive_agreed message m.pq) [
  | none ↦ none
  | some (q1, out) ↦ some (record m { pq = q1 }, listens out)
]

-- A round of `ISIS`.
pub isis : List Text → Message → Multicast → Step
isis encs message m = elim (note_failed m.nfail_check encs m) [
  | none ↦ none
  | some (m1, sent) ↦ elim (dispatch message.status encs message m1) [
    | none ↦ none
    | some (m2, more) ↦ some (m2, sent ++ more)
  ]
]
