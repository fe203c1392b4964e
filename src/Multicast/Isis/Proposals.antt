-- ===== src/Multicast/Isis/Proposals.antt =====
-- multicast-demo/types/multicast.go: how a priority is proposed and agreed.
use mathlib.Core.List.{Perm, Permᴰ}
use mathlib.Core.Logic.{∥∥₁_elim}
use native.Mathlib.Nat.{ℕ_set}
use dist_sys_demos.Base.{
  map, Bool, ℕ, suc, ◌+◌, ◌<◌, ◌≡◌, refl, sym, ap, ◌∙◌, subst, true, false, none, some, List, [],
  ◌∷◌, ◌++◌, append-nil, length, max, arith, ltb, ◌==◌, if◌then◌else◌, Bool-cases, inl, inr,
}
use dist_sys_demos.Base.Dict.{lookup-insert_self, Dict, lookup}
use dist_sys_demos.Base.Text.{Text, text_eq}
use dist_sys_demos.Multicast.Queue.{Message, agreed}
use dist_sys_demos.Multicast.Members.{Multicast, Sending, cast}
use dist_sys_demos.Multicast.Isis.Sends.{
  heard, to_node, copy_for, has_failed, to_node-cast, heard-cast,
}
use dist_sys_demos.Multicast.Isis.{count_alive, agree, raise_proposal, count_proposal}

-- The message that all nodes are sent when its priority is agreed.
abbrev pub agreement : Message → ℕ → Message
agreement message priority = record message { status = agreed; priority = priority }

raise_proposal-none :
    (id : Text) (priority : ℕ) (m : Dict Text ℕ)
    → lookup id m ≡ none
    → lookup id (raise_proposal id priority m) ≡ some priority
unfolding raise_proposal
raise_proposal-none id priority m e = rw (e, raise_proposal) (lookup-insert_self id priority m)

-- The first reply: its priority is kept, and it is counted.
count_proposal-first :
    (encs : List Text) (x : Message) (m : Multicast)
    → lookup x.id m.proposals ≡ none
    → lookup x.id m.repliers ≡ none
    → let r = count_proposal encs x m in
      (lookup x.id r.0.proposals ≡ some x.priority)
      × (lookup x.id r.0.repliers ≡ some 1)
      × (r.0.nfail_check ≡ m.nfail_check)
      × (r.1 ≡ [])
unfolding count_proposal
count_proposal-first encs x m ep er =
    rw (er, count_proposal)
      (
        raise_proposal-none x.id x.priority m.proposals ep,
        lookup-insert_self x.id 1 m.repliers,
        refl,
        refl,
      )

raise_proposal_lem :
    (id : Text) (priority old : ℕ) (m : Dict Text ℕ)
    → lookup id m ≡ some old
    → lookup id (raise_proposal id priority m) ≡ some (max old priority)
unfolding raise_proposal
raise_proposal_lem id priority old m e = elim (Bool-cases (ltb old priority)) [
  | inl above ↦
      rw (e, above, raise_proposal)
        (lookup-insert_self id priority m ∙ ap (λ (n : ℕ). some n) (ground arith))
  | inr within ↦ rw (e, within, raise_proposal) (e ∙ ap (λ (n : ℕ). some n) (ground arith))
]

-- Every later reply: the largest priority is kept, and with the last one it is agreed.
count_proposal-next :
    (encs : List Text) (x : Message) (m : Multicast) (old n : ℕ)
    → lookup x.id m.proposals ≡ some old
    → lookup x.id m.repliers ≡ some n
    → let r = count_proposal encs x m in
      (lookup x.id r.0.proposals ≡ some (max old x.priority))
      × (lookup x.id r.0.repliers ≡ some (n + 1))
      × (r.0.nfail_check ≡ m.nfail_check)
      × (r.1 ≡ (
          if n + 1 == count_alive m.nfail_check
          then cast m.nfail_check encs (agreement x (max old x.priority))
          else []))
unfolding count_proposal agree
count_proposal-next encs x m old n ep er =
    let raised = raise_proposal_lem x.id x.priority old m.proposals ep in
    rw (er, count_proposal)
      (raised, lookup-insert_self x.id (n + 1) m.repliers, refl, rw (raised, agree))

==_true : (a b : ℕ) → a ≡ b → (a == b) ≡ true
==_true a b h = ground arith

==_false : (a b : ℕ) → a < b → (a == b) ≡ false
==_false a b h = ground arith

==_above : (a b : ℕ) → b < a → (a == b) ≡ false
==_above a b h = ground arith

-- The replies to one message, as they come to its sender.
pub count_proposals : List Text → List Message → Multicast → Multicast × List Sending
count_proposals encs [] m = (m, [])
count_proposals encs (x ∷ xs) m =
    let (m1, sent) = count_proposal encs x m in
    let (m2, more) = count_proposals encs xs m1 in (m2, sent ++ more)

abbrev pub AllFor : Text → List Message → Type 0
AllFor id [] = Unit
AllFor id (x ∷ xs) = (x.id ≡ id) × AllFor id xs

-- The largest priority, from a given one on.
abbrev pub largest : ℕ → List Message → ℕ
largest old [] = old
largest old (x ∷ xs) = largest (max old x.priority) xs

abbrev pub last_of : Message → List Message → Message
last_of x [] = x
last_of x (y ∷ ys) = last_of y ys

count_proposals-rest :
    (encs : List Text) (x : Message) (xs : List Message) (m : Multicast) (old n : ℕ)
    → AllFor x.id xs
    → lookup x.id m.proposals ≡ some old
    → lookup x.id m.repliers ≡ some n
    → count_alive m.nfail_check ≡ n + suc (length xs)
    → (count_proposals encs (x ∷ xs) m).1
      ≡ cast m.nfail_check encs (agreement (last_of x xs) (largest old (x ∷ xs)))
unfolding count_proposals
count_proposals-rest encs x [] m old n same ep er alive =
    let (p1, r1, f1, s1) = count_proposal-next encs x m old n ep er in
    append-nil (count_proposal encs x m).1
    ∙ s1
    ∙ rw (==_true (n + 1) (count_alive m.nfail_check) (omega arith))
count_proposals-rest encs x (y ∷ ys) m old n same ep er alive =
    let m1 = (count_proposal encs x m).0 in
    let (p1, r1, f1, s1) = count_proposal-next encs x m old n ep er in
    let none_yet : (count_proposal encs x m).1 ≡ [] =
      s1 ∙ rw (==_false (n + 1) (count_alive m.nfail_check) (omega arith)) in
    rw none_yet (
      count_proposals-rest encs y ys m1 (max old x.priority) (n + 1)
        (subst (λ i. AllFor i ys) (sym same.0) same.1) (ap (λ i. lookup i m1.proposals) same.0 ∙ p1)
        (ap (λ i. lookup i m1.repliers) same.0 ∙ r1) (ap count_alive f1 ∙ omega (arith, alive))
      ∙ ap (λ f. cast f encs (agreement (last_of y ys) (largest (max old x.priority) (y ∷ ys)))) f1)

count_proposals-sent :
    (encs : List Text) (x y : Message) (ys : List Message) (m : Multicast)
    → AllFor x.id (y ∷ ys)
    → lookup x.id m.proposals ≡ none
    → lookup x.id m.repliers ≡ none
    → count_alive m.nfail_check ≡ length (x ∷ y ∷ ys)
    → (count_proposals encs (x ∷ y ∷ ys) m).1
      ≡ cast m.nfail_check encs (agreement (last_of y ys) (largest x.priority (y ∷ ys)))
unfolding count_proposals
count_proposals-sent encs x y ys m same ep er alive =
    let m1 = (count_proposal encs x m).0 in
    let (p1, r1, f1, s1) = count_proposal-first encs x m ep er in
    rw s1 (
      count_proposals-rest encs y ys m1 x.priority 1 (subst (λ i. AllFor i ys) (sym same.0) same.1)
        (ap (λ i. lookup i m1.proposals) same.0 ∙ p1) (ap (λ i. lookup i m1.repliers) same.0 ∙ r1)
        (ap count_alive f1 ∙ omega (arith, alive))
      ∙ ap (λ f. cast f encs (agreement (last_of y ys) (largest x.priority (y ∷ ys)))) f1)

-- The nodes that have not failed.
abbrev pub alive : Dict Text Bool → List Text
alive [] = []
alive ((k, f) ∷ nodes) = let rest = alive nodes in if f then rest else k ∷ rest

count_alive_lem : (nodes : Dict Text Bool) → count_alive nodes ≡ length (alive nodes)
unfolding count_alive
count_alive_lem [] = refl
count_alive_lem ((k, f) ∷ nodes) = ground (arith, count_alive_lem nodes)

length-Permᴰ : {s t : List Text} → Permᴰ s t → length s ≡ length t
length-Permᴰ Permᴰ.nil = refl
length-Permᴰ (Permᴰ.cons e p) = omega (arith, length-Permᴰ p)
length-Permᴰ (Permᴰ.swap e e1) = omega arith
length-Permᴰ (Permᴰ.trans p r) = length-Permᴰ p ∙ length-Permᴰ r

length-Perm : {s t : List Text} → Perm s t → length s ≡ length t
length-Perm {s} {t} p = ∥∥₁_elim p (ℕ_set (length s) (length t)) length-Permᴰ

length-repliers : (xs : List Message) → length (map (λ r. r.r_node_id) xs) ≡ length xs
length-repliers [] = refl
length-repliers (x ∷ xs) = omega (arith, length-repliers xs)

-- Once each node that has not failed has replied to a message, in any order, all replies for it and
-- none counted before, the sender has sent the agreement, with the largest of the proposals, to each
-- node that it has an encoder for and that has not failed, once for an encoder, and nothing else.
-- There are at least two replies.
pub count_proposals-agreed :
    (encs : List Text) (x y : Message) (ys : List Message) (m : Multicast)
    → AllFor x.id (y ∷ ys)
    → lookup x.id m.proposals ≡ none
    → lookup x.id m.repliers ≡ none
    → Perm (map (λ r. r.r_node_id) (x ∷ y ∷ ys)) (alive m.nfail_check)
    → let sent = (count_proposals encs (x ∷ y ∷ ys) m).1 in
      ((node : Text)
        → to_node node sent ≡ (
            if has_failed node m.nfail_check
            then []
            else copy_for node encs (agreement (last_of y ys) (largest x.priority (y ∷ ys)))))
      × (heard sent ≡ [])
count_proposals-agreed encs x y ys m same ep er replied =
    let agreed_on = agreement (last_of y ys) (largest x.priority (y ∷ ys)) in
    let all : (count_proposals encs (x ∷ y ∷ ys) m).1 ≡ cast m.nfail_check encs agreed_on =
      count_proposals-sent encs x y ys m same ep er (
        count_alive_lem m.nfail_check ∙ sym (length-Perm replied) ∙ length-repliers (x ∷ y ∷ ys)) in
    (
      λ node. ap (to_node node) all ∙ to_node-cast node m.nfail_check encs agreed_on,
      ap heard all ∙ heard-cast m.nfail_check encs agreed_on,
    )

count_proposals-silent :
    (encs : List Text) (x : Message) (xs : List Message) (m : Multicast) (old n : ℕ)
    → AllFor x.id xs
    → lookup x.id m.proposals ≡ some old
    → lookup x.id m.repliers ≡ some n
    → count_alive m.nfail_check < n + 1
    → (count_proposals encs (x ∷ xs) m).1 ≡ []
unfolding count_proposals
count_proposals-silent encs x [] m old n same ep er few =
    let (p1, r1, f1, s1) = count_proposal-next encs x m old n ep er in
    append-nil (count_proposal encs x m).1
    ∙ s1
    ∙ rw (==_above (n + 1) (count_alive m.nfail_check) (omega arith))
count_proposals-silent encs x (y ∷ ys) m old n same ep er few =
    let m1 = (count_proposal encs x m).0 in
    let (p1, r1, f1, s1) = count_proposal-next encs x m old n ep er in
    let none_yet : (count_proposal encs x m).1 ≡ [] =
      s1 ∙ rw (==_above (n + 1) (count_alive m.nfail_check) (omega arith)) in
    rw none_yet (
      count_proposals-silent encs y ys m1 (max old x.priority) (n + 1)
        (subst (λ i. AllFor i ys) (sym same.0) same.1) (ap (λ i. lookup i m1.proposals) same.0 ∙ p1)
        (ap (λ i. lookup i m1.repliers) same.0 ∙ r1) (omega (arith, ap count_alive f1)))

-- A sender that alone is alive never sends an agreement for a new message, however many replies
-- come: the first reply is not compared with the number of nodes.
pub count_proposals-alone :
    (encs : List Text) (x : Message) (xs : List Message) (m : Multicast)
    → AllFor x.id xs
    → lookup x.id m.proposals ≡ none
    → lookup x.id m.repliers ≡ none
    → count_alive m.nfail_check ≡ 1
    → (count_proposals encs (x ∷ xs) m).1 ≡ []
unfolding count_proposals
count_proposals-alone encs x [] m same ep er alive =
    let (p1, r1, f1, s1) = count_proposal-first encs x m ep er in
    append-nil (count_proposal encs x m).1 ∙ s1
count_proposals-alone encs x (y ∷ ys) m same ep er alive =
    let m1 = (count_proposal encs x m).0 in
    let (p1, r1, f1, s1) = count_proposal-first encs x m ep er in
    rw s1 (
      count_proposals-silent encs y ys m1 x.priority 1
        (subst (λ i. AllFor i ys) (sym same.0) same.1) (ap (λ i. lookup i m1.proposals) same.0 ∙ p1)
        (ap (λ i. lookup i m1.repliers) same.0 ∙ r1) (omega (arith, ap count_alive f1, alive)))
