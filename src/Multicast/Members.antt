-- ===== src/Multicast/Members.antt =====
-- multicast-demo/types/multicast.go: the fields of `Multicast`, `Cast`, what `Deliver` does with a read,
-- and what `ISIS` does about nodes that have failed before it looks at a message. A map of encoders is
-- the list of its keys, in the order of an iteration. `none` is a panic.
use dist_sys_demos.Base.{
  ℕ, zero, suc, Bool, true, false, ◌&&◌, Option, none, some, List, [], ◌∷◌, ◌++◌, length, set,
  get_elem?, ◌==◌, if◌then◌else◌,
}
use dist_sys_demos.Base.Dict.{Dict, lookup, insert}
use dist_sys_demos.Base.Text.{Text, text_eq, text_beq}
use dist_sys_demos.Multicast.Queue.{
  Status, initial, proposed, proposed_failed, Message, Queue, remove,
}

-- The mutexes and the connections are left out. `a` is the field `A`, and `p` the field `P`.
pub record Multicast : Type 0 where
  pub a : ℕ
  pub p : ℕ
  pub cur_node_id : Text
  pub alive_nodes : ℕ
  pub nfail_check : Dict Text Bool
  pub message_check : Dict Text Bool
  pub message_n_check : Dict Text ℕ
  pub pq : Queue
  pub proposals : Dict Text ℕ
  pub repliers : Dict Text ℕ

-- What a branch sends: a message to a node, or one to the application.
pub data Sending : Type 0 where
  cast_to : Text → Message → Sending
  listen : Message → Sending

abbrev pub Step : Type 0
Step = Option (Multicast × List Sending)

-- Reads through a map: what is missing is the zero value.
abbrev pub is_true : Option Bool → Bool
is_true none = false
is_true (some b) = b

abbrev pub or_zero : Option ℕ → ℕ
or_zero none = 0
or_zero (some n) = n

abbrev pub has {ℓ} : {A : Type ℓ} → Option A → Bool
has none = false
has (some a) = true

-- `Cast`: to every node that has not failed.
unfoldable pub cast : Dict Text Bool → List Text → Message → List Sending
cast nfail_check [] message = []
cast nfail_check (k ∷ encs) message =
    let rest = cast nfail_check encs message in
    if is_true (lookup k nfail_check) then rest else cast_to k message ∷ rest

-- A round of `Deliver`, which reads from one node: the message for `ISIS`, and whether the loop goes
-- on. `none` stands for a read that fails.
unfoldable pub receive : Text → Option Message → Multicast → Multicast × List Message × Bool
receive loc_nodeid none m =
    (record m { nfail_check = insert loc_nodeid true m.nfail_check }, [], false)
receive loc_nodeid (some message) m =
    if has (lookup message.id m.message_check)
      && (elim message.status [ initial ↦ true | _ ↦ false ])
    then (m, [], true)
    else (m, record message { r_node_id = loc_nodeid } ∷ [], true)

-- `enc.Encode` with the encoder of one node, which may be missing.
abbrev pub has_encoder : Text → List Text → Bool
has_encoder k [] = false
has_encoder k (e ∷ encs) = let rest = has_encoder k encs in if text_beq e k then true else rest

abbrev pub is_proposed : Status → Bool
is_proposed proposed = true
is_proposed _ = false

-- The loop over the queue for a failed node, from place `k` on. The slice is read at each place as it
-- then is: a message that `Remove` has moved to a place already passed is not seen, and a place that
-- has become empty is nil.
unfoldable pub drop_failed : ℕ → ℕ → Text → List Text → Queue → Option (Queue × List Sending)
drop_failed zero k n_fail encs q = some (q, [])
drop_failed (suc rounds) k n_fail encs q = elim (get_elem? q k) [
  | none ↦ drop_failed rounds (suc k) n_fail encs q
  | some item ↦ elim (is_proposed item.status) [
    | false ↦ drop_failed rounds (suc k) n_fail encs q
    | true ↦ elim (text_beq item.node_id n_fail) [
      | true ↦ elim (remove k q) [
        | none ↦ none
        | some (x, q1) ↦ drop_failed rounds (suc k) n_fail encs q1
      ]
      | false ↦
          let item1 : Message = record item { status = proposed_failed } in
          elim (has_encoder item.node_id encs) [
            | false ↦ none
            | true ↦ elim (drop_failed rounds (suc k) n_fail encs (set q k item1)) [
              | none ↦ none
              | some (q1, sent) ↦ some (q1, cast_to item.node_id item1 ∷ sent)
            ]
          ]
    ]
  ]
]

-- What `ISIS` does before it looks at the message: the first time that it sees a node as failed.
unfoldable pub note_failed : Dict Text Bool → List Text → Multicast → Step
note_failed [] encs m = some (m, [])
note_failed ((n_fail, f) ∷ nodes) encs m =
    elim (f && (or_zero (lookup n_fail m.message_n_check) == 0)) [
      | false ↦ note_failed nodes encs m
      | true ↦ elim (drop_failed (length m.pq) 0 n_fail encs m.pq) [
        | none ↦ none
        | some (q1, sent) ↦
            elim (note_failed nodes encs
              (record m { message_n_check = insert n_fail 1 m.message_n_check; pq = q1 })) [
                | none ↦ none
                | some (m1, more) ↦ some (m1, sent ++ more)
              ]
      ]
    ]
