-- ===== src/Multicast/Queue.antt =====
-- multicast-demo/types/message.go and priority_queue.go: the queue of messages, with what it uses of
-- Go's container/heap. A message in the queue is changed only through the queue, so the queue holds
-- the messages themselves; a pointer to one is its position. `none` is an index out of range.
pub mod Places
pub mod Sift
pub mod Heap
pub mod Order
pub mod Children
pub mod Descent
pub mod Ascent
pub mod Repair
pub mod Sorted
pub mod Copies
pub mod Removal
pub mod Tests
use dist_sys_demos.Base.{
  ℕ, zero, suc, ◌+◌, ◌-◌, ◌*◌, ◌/◌, Bool, true, false, ◌&&◌, ◌||◌, Option, none, some, List, [],
  ◌∷◌, ◌++◌, length, take, set, get_elem?, ltb, leb, ◌==◌, if◌then◌else◌,
}
use dist_sys_demos.Base.Text.{Text, text_beq}
use dist_sys_demos.Base.Int.{ℤ}

-- The values of `Status`: "i", "p", "a", and "pf".
pub data Status : Type 0 where
  initial proposed agreed proposed_failed : Status

-- `none` in `index` is the source's -1.
pub record Message : Type 0 where
  pub id : Text
  pub sender : ℕ
  pub priority : ℕ
  pub index : Option ℕ
  pub node_id : Text
  pub r_node_id : Text
  pub status : Status
  pub is_deliverable : Bool
  pub is_deposit : Bool
  pub names : List Text
  pub amount : ℤ

-- `MessagePQ`
abbrev pub Queue : Type 0
Queue = List Message

-- By priority, then by sender.
pub before : Message → Message → Bool
before a b = ltb a.priority b.priority || (a.priority == b.priority && ltb a.sender b.sender)

-- `Less`
pub less : ℕ → ℕ → Queue → Option Bool
less i j q = elim (get_elem? q i) [
  | none ↦ none
  | some a ↦ elim (get_elem? q j) [ none ↦ none | some b ↦ some (before a b) ]
]

-- `Swap`
pub swap : ℕ → ℕ → Queue → Option Queue
swap i j q = elim (get_elem? q i) [
  | none ↦ none
  | some a ↦ elim (get_elem? q j) [
    | none ↦ none
    | some b ↦ some (set (set q i (record b { index = some i })) j (record a { index = some j }))
  ]
]

-- `Push` of the interface
pub append_message : Message → Queue → Queue
append_message m q = q ++ (record m { index = some (length q) } ∷ [])

-- `Pop` of the interface: the last message.
pub drop_last : Queue → Option (Message × Queue)
drop_last q = elim (get_elem? q (length q - 1)) [
  | none ↦ none
  | some m ↦ some (record m { index = none }, take (length q - 1) q)
]

-- `heap.up`, with its rounds.
pub up : ℕ → ℕ → Queue → Option Queue
up zero j q = none
up (suc fuel) j q =
    let i = (j - 1) / 2 in
    if i == j then some q else elim (less j i q) [
      | none ↦ none
      | some smaller ↦
          if smaller then elim (swap i j q) [ none ↦ none | some q1 ↦ up fuel i q1 ] else some q
    ]

-- The smaller child of a node, whose left child is `l`.
pub child : ℕ → ℕ → Queue → Option ℕ
child n l q =
    if ltb (suc l) n
    then elim (less (suc l) l q) [ none ↦ none | some right ↦ some (if right then suc l else l) ]
    else some l

-- `heap.down`, with its rounds: the queue and the place that the message reaches.
pub down : ℕ → ℕ → ℕ → Queue → Option (Queue × ℕ)
down zero i n q = none
down (suc fuel) i n q = if leb n (2 * i + 1) then some (q, i) else elim (child n (2 * i + 1) q) [
  | none ↦ none
  | some j ↦ elim (less j i q) [
    | none ↦ none
    | some smaller ↦
        if smaller
        then elim (swap i j q) [ none ↦ none | some q1 ↦ down fuel j n q1 ]
        else some (q, i)
  ]
]

-- `if !down(h, i, n) { up(h, i) }`
pub settle : ℕ → ℕ → Queue → Option Queue
settle i n q = elim (down (suc n) i n q) [
  | none ↦ none
  | some (q1, j) ↦ if ltb i j then some q1 else up (suc i) i q1
]

-- `heap.Push`
pub push : Message → Queue → Option Queue
push m q = up (suc (length q)) (length q) (append_message m q)

-- `heap.Pop`
pub pop : Queue → Option (Message × Queue)
pop q = elim (swap 0 (length q - 1) q) [
  | none ↦ none
  | some q1 ↦ elim (down (suc (length q)) 0 (length q - 1) q1) [
    | none ↦ none
    | some (q2, j) ↦ drop_last q2
  ]
]

-- `heap.Fix`
pub fix : ℕ → Queue → Option Queue
fix i q = settle i (length q) q

-- `heap.Remove`
pub remove_at : ℕ → Queue → Option (Message × Queue)
remove_at i q = if i == length q - 1 then drop_last q else elim (swap i (length q - 1) q) [
  | none ↦ none
  | some q1 ↦ elim (settle i (length q - 1) q1) [ none ↦ none | some q2 ↦ drop_last q2 ]
]

-- `FindById`: the first message with an id, by its place from `p` on.
unfoldable pub find_by_id : Text → ℕ → Queue → Option ℕ
find_by_id id p [] = none
find_by_id id p (m ∷ q) =
    let rest = find_by_id id (suc p) q in if text_beq m.id id then some p else rest

-- `Update` of the message at place `p`, with the index that the message carries; the index -1 moves
-- nothing.
pub update : ℕ → ℕ → Queue → Option Queue
update p priority q = elim (get_elem? q p) [
  | none ↦ none
  | some m ↦
      let q1 = set q p (record m { priority = priority }) in
      elim m.index [ none ↦ some q1 | some i ↦ fix i q1 ]
]

-- `Remove` of the message at place `p`; the index -1 panics.
pub remove : ℕ → Queue → Option (Message × Queue)
remove p q = elim (get_elem? q p) [
  | none ↦ none
  | some m ↦ elim m.index [ none ↦ none | some i ↦ remove_at i q ]
]
