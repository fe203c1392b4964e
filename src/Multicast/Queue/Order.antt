-- ===== src/Multicast/Queue/Order.antt =====
-- multicast-demo/types/priority_queue.go: the order of the heap, and what a swap does to it. Two
-- queues hold the same messages if they are permutations of one another, but for the indices.
use mathlib.Core.List.Perm
use mathlib.Core.List.{Perm, Permᴰ}
use mathlib.Core.Logic.{∥∥₁_elim}
use native.Mathlib.Nat.{ℕ_set}
use dist_sys_demos.Base.{
  ℕ, zero, suc, ◌<◌, ◌≡◌, refl, sym, ap, ◌∙◌, subst, Bool, true, false, Option, none, some, List,
  [], ◌∷◌, ◌++◌, map, length, length-set, set, take, get_elem?, arith, ◌==◌, if◌then◌else◌,
}
use dist_sys_demos.Base.Int.{pos}
use dist_sys_demos.Multicast.Queue.{Message, Queue, initial, before, swap}
use dist_sys_demos.Multicast.Queue.Places.{swap_inv}

-- What stands outside the queue.
abbrev no_message : Message
no_message = record {
  id = [];
  sender = 0;
  priority = 0;
  index = none;
  node_id = [];
  r_node_id = [];
  status = initial;
  is_deliverable = false;
  is_deposit = false;
  names = [];
  amount = pos 0;
}

unfoldable pub at : Queue → ℕ → Message
at [] i = no_message
at (m ∷ q) zero = m
at (m ∷ q) (suc i) = at q i

abbrev pub forget : Message → Message
forget m = record m { index = none }

abbrev pub SameMessages : Queue → Queue → Type 0
SameMessages q q1 = Perm (map forget q) (map forget q1)

length-Permᴰ {ℓ} : {A : Type ℓ} {a b : List A} → Permᴰ a b → length a ≡ length b
length-Permᴰ Permᴰ.nil = refl
length-Permᴰ (Permᴰ.cons _ p) = ap suc (length-Permᴰ p)
length-Permᴰ (Permᴰ.swap _ _) = refl
length-Permᴰ (Permᴰ.trans p r) = length-Permᴰ p ∙ length-Permᴰ r

length-forget : (q : Queue) → length (map forget q) ≡ length q
length-forget [] = refl
length-forget (m ∷ q) = ap suc (length-forget q)

pub length-same : (q q1 : Queue) → SameMessages q q1 → length q ≡ length q1
length-same q q1 p =
    sym (length-forget q)
    ∙ ∥∥₁_elim p (ℕ_set (length (map forget q)) (length (map forget q1))) length-Permᴰ
    ∙ length-forget q1

-- The first does not come after the second.
abbrev pub NotAfter : Message → Message → Type 0
NotAfter a b = before b a ≡ false

pub NotAfter-trans : (a b c : Message) → NotAfter a b → NotAfter b c → NotAfter a c
unfolding before
NotAfter-trans a b c h k = ground arith

pub NotAfter-of_before : (a b : Message) → before a b ≡ true → NotAfter a b
unfolding before
NotAfter-of_before a b h = ground arith

pub NotAfter-refl : (a : Message) → NotAfter a a
unfolding before
NotAfter-refl a = ground arith

pub before-index :
    (a b : Message) (i j : Option ℕ)
    → before (record a { index = i }) (record b { index = j }) ≡ before a b
unfolding before
before-index a b i j = refl

pub NotAfter-forget : (a b : Message) → NotAfter a b → NotAfter (forget a) b
unfolding before
NotAfter-forget a b h = h

-- A change that leaves priority and sender alone leaves the order alone.
pub NotAfter-deliverable :
    (a b : Message) (s t : Bool)
    → NotAfter a b
    → NotAfter
        (if s then record a { is_deliverable = true } else a)
        (if t then record b { is_deliverable = true } else b)
unfolding before
NotAfter-deliverable a b true true h = h
NotAfter-deliverable a b true false h = h
NotAfter-deliverable a b false true h = h
NotAfter-deliverable a b false false h = h

pub at-of_elem : (q : Queue) (i : ℕ) (m : Message) → get_elem? q i ≡ some m → at q i ≡ m
unfolding at
at-of_elem [] i m e = cc
at-of_elem (x ∷ q) zero m e = cc
at-of_elem (x ∷ q) (suc i) m e = at-of_elem q i m e

pub elem-at : (q : Queue) (i : ℕ) → i < length q → get_elem? q i ≡ some (at q i)
unfolding at
elem-at [] i h = absurd (omega arith)
elem-at (x ∷ q) zero h = refl
elem-at (x ∷ q) (suc i) h = elem-at q i (omega arith)

pub at-set :
    (q : Queue) (i c : ℕ) (m : Message)
    → i < length q
    → at (set q i m) c ≡ (if i == c then m else at q c)
unfolding at
at-set [] i c m h = absurd (omega arith)
at-set (x ∷ q) zero zero m h = refl
at-set (x ∷ q) (suc i) (suc c) m h = ground (arith, at-set q i c m)
at-set (x ∷ q) zero (suc c) m h = ground arith
at-set (x ∷ q) (suc i) zero m h = ground arith

pub at-append : (q r : Queue) (i : ℕ) → i < length q → at (q ++ r) i ≡ at q i
unfolding at
at-append [] r i h = absurd (omega arith)
at-append (x ∷ q) r zero h = refl
at-append (x ∷ q) r (suc i) h = at-append q r i (omega arith)

pub at-snoc : (q : Queue) (m : Message) → at (q ++ m ∷ []) (length q) ≡ m
unfolding at
at-snoc [] m = refl
at-snoc (x ∷ q) m = at-snoc q m

pub at-take : (n : ℕ) (q : Queue) (i : ℕ) → i < n → at (take n q) i ≡ at q i
unfolding at
at-take zero q i h = absurd (omega arith)
at-take (suc n) [] i h = refl
at-take (suc n) (x ∷ q) zero h = refl
at-take (suc n) (x ∷ q) (suc i) h = at-take n q i (omega arith)

pub set-same :
    (q : Queue) (i : ℕ) (m : Message)
    → i < length q
    → Perm (forget (at q i) ∷ map forget (set q i m)) (forget m ∷ map forget q)
unfolding at
set-same [] i m h = absurd (omega arith)
set-same (x ∷ q) zero m h = Perm.swap (forget m) (forget x) (map forget q)
set-same (x ∷ q) (suc i) m h = Perm.trans (Perm.swap (forget x) (forget (at q i)) _) (
    Perm.trans (Perm.cons (forget x) (set-same q i m (omega arith)))
      (Perm.swap (forget m) (forget x) _))

module _ (i j : ℕ) (q q1 : Queue) (e : swap i j q ≡ some q1) (hi : i < length q)
    (hj : j < length q) where
  swapped :
      q1 ≡ set (set q i (record (at q j) { index = some i })) j (record (at q i) { index = some j })
  swapped =
      let (a, b, ea, eb, e1) = swap_inv i j q q1 e in
      e1 ∙ rw (at-of_elem q i a ea, at-of_elem q j b eb)

  pub length-swap : length q1 ≡ length q
  length-swap =
      ap length swapped
      ∙ length-set (set q i (record (at q j) { index = some i })) j
          (record (at q i) { index = some j })
      ∙ length-set q i (record (at q j) { index = some i })

  pub at-swap :
      (c : ℕ)
      → at q1 c ≡ (
          if j == c
          then record (at q i) { index = some j }
          else if i == c
          then record (at q j) { index = some i }
          else at q c)
  at-swap c =
      ap (λ l. at l c) swapped
      ∙ at-set (set q i (record (at q j) { index = some i })) j c
          (record (at q i) { index = some j })
          (omega (arith, length-set q i (record (at q j) { index = some i })))
      ∙ rw (at-set q i c (record (at q j) { index = some i }) hi)

  pub swap-same : SameMessages q1 q
  swap-same =
      let b : Message = record (at q j) { index = some i } in
      let a : Message = record (at q i) { index = some j } in
      let q0 = set q i b in
      let l0 = length-set q i b in
      let first = set-same q i b hi in
      let second = set-same q0 j a (omega (arith, l0)) in
      let old : forget (at q0 j) ≡ forget (at q j) =
        ap forget (at-set q i j b hi) ∙ forget_if (i == j) in
      Perm.cons_inv (
        Perm.trans
          (subst (λ l. Perm (forget (at q j) ∷ map forget l) (forget a ∷ map forget q0))
            (sym swapped)
            (subst (λ m. Perm (m ∷ map forget (set q0 j a)) (forget a ∷ map forget q0)) old second))
          first)
    where
      forget_if :
          (t : Bool)
          → forget (if t then record (at q j) { index = some i } else at q j) ≡ forget (at q j)
      forget_if true = refl
      forget_if false = refl
