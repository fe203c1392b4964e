-- ===== src/Multicast/Isis/Sends.antt =====
-- multicast-demo/types/multicast.go: what each node, and the application, are sent.
use dist_sys_demos.Base.{
  ◌≡◌, refl, ap, Bool, false, none, some, List, [], ◌∷◌, ◌++◌, arith, if◌then◌else◌, Bool-cases,
  inl, inr,
}
use dist_sys_demos.Base.Dict.{Dict, lookup}
use dist_sys_demos.Base.Text.{Text, text_eq, text_beq, text_beq_iff}
use dist_sys_demos.Multicast.Queue.{Message}
use dist_sys_demos.Multicast.Members.{Sending, cast_to, listen, cast}
use dist_sys_demos.Multicast.Isis.{relay}

-- What goes to the application.
abbrev pub heard : List Sending → List Message
heard [] = []
heard (listen m ∷ sent) = m ∷ heard sent
heard (cast_to k m ∷ sent) = heard sent

pub heard-append : (a b : List Sending) → heard (a ++ b) ≡ heard a ++ heard b
heard-append [] b = refl
heard-append (listen m ∷ a) b = ap (λ ms. m ∷ ms) (heard-append a b)
heard-append (cast_to k m ∷ a) b = heard-append a b

-- What goes to one node, in its order.
abbrev pub to_node : Text → List Sending → List Message
to_node k [] = []
to_node k (listen m ∷ sent) = to_node k sent
to_node k (cast_to j m ∷ sent) =
    let rest = to_node k sent in if text_beq j k then m ∷ rest else rest

pub to_node-append :
    (k : Text) (a b : List Sending) → to_node k (a ++ b) ≡ to_node k a ++ to_node k b
to_node-append k [] b = refl
to_node-append k (listen m ∷ a) b = to_node-append k a b
to_node-append k (cast_to j m ∷ a) b = elim (Bool-cases (text_beq j k)) [
  | inl here ↦ rw here (ap (λ ms. m ∷ ms) (to_node-append k a b))
  | inr there ↦ rw there (to_node-append k a b)
]

-- A message once for each encoder of a node.
abbrev pub copy_for : Text → List Text → Message → List Message
copy_for k [] m = []
copy_for k (e ∷ encs) m = let rest = copy_for k encs m in if text_beq e k then m ∷ rest else rest

-- A failure of the node has been noted.
abbrev pub has_failed : Text → Dict Text Bool → Bool
has_failed k nfail_check = elim (lookup k nfail_check) [ none ↦ false | some f ↦ f ]

-- `Cast` sends a message to the nodes that have not failed, and to no other.
pub to_node-cast :
    (k : Text) (nfail_check : Dict Text Bool) (encs : List Text) (m : Message)
    → to_node k (cast nfail_check encs m)
      ≡ (if has_failed k nfail_check then [] else copy_for k encs m)
unfolding cast
to_node-cast k nfail_check [] m = ground arith
to_node-cast k nfail_check (e ∷ encs) m = elim (Bool-cases (text_beq e k)) [
  | inl here ↦
      let same = (text_beq_iff e k).0 here in
      ground
        (arith, here, same, ap (λ x. lookup x nfail_check) same, to_node-cast k nfail_check encs m)
  | inr there ↦ ground (arith, there, to_node-cast k nfail_check encs m)
]

pub heard-cast :
    (nfail_check : Dict Text Bool) (encs : List Text) (m : Message)
    → heard (cast nfail_check encs m) ≡ []
unfolding cast
heard-cast nfail_check [] m = refl
heard-cast nfail_check (e ∷ encs) m = ground (arith, heard-cast nfail_check encs m)

-- The first copy of a message is passed on to all nodes but the node itself.
pub to_node-relay :
    (k cur : Text) (encs : List Text) (m : Message)
    → to_node k (relay cur encs m) ≡ (if text_beq k cur then [] else copy_for k encs m)
to_node-relay k cur [] m = ground arith
to_node-relay k cur (e ∷ encs) m = elim (Bool-cases (text_beq e k)) [
  | inl here ↦
      let same = (text_beq_iff e k).0 here in
      ground (arith, here, ap (λ x. text_beq x cur) same, to_node-relay k cur encs m)
  | inr there ↦ ground (arith, there, to_node-relay k cur encs m)
]

pub heard-relay : (cur : Text) (encs : List Text) (m : Message) → heard (relay cur encs m) ≡ []
heard-relay cur [] m = refl
heard-relay cur (e ∷ encs) m = ground (arith, heard-relay cur encs m)
