-- ===== src/Multicast/Isis/Once/Rounds.antt =====
-- multicast-demo/types/multicast.go: what is delivered over all rounds of `ISIS`.
use dist_sys_demos.Base.{◌≤◌, ◌≡◌, subst, none, some, List, [], ◌++◌, ◌+◌, arith}
use dist_sys_demos.Base.Dict.{lookup}
use dist_sys_demos.Base.Text.{Text, text_eq}
use dist_sys_demos.Multicast.Queue.{Message}
use dist_sys_demos.Multicast.Queue.Sorted.{IsQueue}
use dist_sys_demos.Multicast.Queue.Copies.{copies, copies-nil, copies-append}
use dist_sys_demos.Multicast.Members.{Multicast, Sending, Step, note_failed, receive}
use dist_sys_demos.Multicast.Isis.{dispatch, isis}
use dist_sys_demos.Multicast.Isis.Sends.{heard}
use dist_sys_demos.Multicast.Isis.Once.{known, Moves, Moves-trans, dispatch-Moves}
use dist_sys_demos.Multicast.Isis.Once.Dropping.{note_failed-Moves}

isis-Moves :
    (encs : List Text) (message : Message) (m : Multicast)
    → IsQueue m.pq
    → Moves m (isis encs message m)
unfolding isis
isis-Moves encs message m v =
    go (note_failed m.nfail_check encs m) (note_failed-Moves m.nfail_check encs m v)
  where
    go :
        (r : Step)
        → Moves m r
        → Moves m (elim r [
          | none ↦ none
          | some (m1, sent) ↦ elim (dispatch message.status encs message m1) [
            | none ↦ none
            | some (m2, more) ↦ some (m2, sent ++ more)
          ]
        ])
    go none h = tt
    go (some (m1, sent)) h =
        Moves-trans m m1 sent (dispatch message.status encs message m1) h
          (dispatch-Moves message.status encs message m1 h.0)

-- The states of a node, with the messages that it has delivered in them.
pub data Heard (encs : List Text) (m : Multicast) : List Message → Multicast → Type 0 where
  here : Heard encs m [] m
  round :
      (out : List Message) (m1 m2 : Multicast) (message : Message) (sent : List Sending)
      → Heard encs m out m1
      → isis encs message m1 ≡ some (m2, sent)
      → Heard encs m (out ++ heard sent) m2
  fails :
      (out : List Message) (m1 : Multicast) (node : Text)
      → Heard encs m out m1
      → Heard encs m out (receive node none m1).0

Heard-kept :
    {encs : List Text} {m : Multicast} {out : List Message} {m1 : Multicast}
    → IsQueue m.pq
    → ((id : Text) → copies id m.pq ≤ known id m)
    → Heard encs m out m1
    → IsQueue m1.pq × ((id : Text) → copies id out + copies id m1.pq ≤ known id m1)
unfolding receive
Heard-kept v h here = (v, λ id. omega (arith, h id, copies-nil id))
Heard-kept {encs} v h (round out m1 m2 message sent r e) =
    let (w, k) = Heard-kept v h r in
    let (w2, k2) = subst (Moves m1) e (isis-Moves encs message m1 w) in
    (w2, λ id. omega (arith, k id, k2 id, copies-append id out (heard sent)))
Heard-kept v h (fails out m1 node r) = Heard-kept v h r

-- Over all rounds of `ISIS` and all failures, from a state whose queue is a heap of messages that
-- have been received, each once: of the messages with one id at most one is delivered, and none if
-- no first copy of it has been received; while one is in the queue none has been delivered.
pub Heard-once :
    {encs : List Text} {m : Multicast} {out : List Message} {m1 : Multicast} (id : Text)
    → IsQueue m.pq
    → ((id1 : Text) → copies id1 m.pq ≤ known id1 m)
    → Heard encs m out m1
    → (copies id out + copies id m1.pq ≤ 1)
      × (lookup id m1.message_check ≡ none → copies id out ≡ 0)
Heard-once {m1 = m1} id v h r =
    let k = (Heard-kept v h r).1 id in (ground (arith, k), λ unseen. ground (arith, k, unseen))
