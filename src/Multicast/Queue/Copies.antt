-- ===== src/Multicast/Queue/Copies.antt =====
-- multicast-demo/types/priority_queue.go: how many messages of a list have a given id.
use mathlib.Core.List.{Perm, Permᴰ}
use mathlib.Core.Logic.{∥∥₁_elim}
use native.Mathlib.Nat.{ℕ_set}
use dist_sys_demos.Base.{
  Bool, ℕ, suc, ◌+◌, ◌≤◌, ◌<◌, ◌≡◌, refl, sym, ap, ◌∙◌, subst, true, false, List, [], ◌∷◌, ◌++◌,
  map, length, length-set, set, arith, ◌==◌, if◌then◌else◌, Bool-cases, inl, inr,
}
use dist_sys_demos.Base.Text.{Text, text_beq}
use dist_sys_demos.Multicast.Queue.{Message, Queue, proposed_failed, before}
use dist_sys_demos.Multicast.Queue.Places.{PlacedFrom-set, placed_at}
use dist_sys_demos.Multicast.Queue.Order.{at, forget, NotAfter, elem-at, at-set, set-same}
use dist_sys_demos.Multicast.Queue.Children.{parent}
use dist_sys_demos.Multicast.Queue.Sorted.{IsQueue}

unfoldable pub copies : Text → List Message → ℕ
copies id [] = 0
copies id (m ∷ q) = let n = copies id q in if text_beq m.id id then suc n else n

pub copies-nil : (id : Text) → copies id [] ≡ 0
unfolding copies
copies-nil id = refl

pub copies-cons :
    (id : Text) (m : Message) (q : List Message)
    → copies id (m ∷ q) ≡ (if text_beq m.id id then 1 else 0) + copies id q
unfolding copies
copies-cons id m q = ground arith

pub copies-append :
    (id : Text) (q r : List Message) → copies id (q ++ r) ≡ copies id q + copies id r
unfolding copies
copies-append id [] r = omega arith
copies-append id (m ∷ q) r = ground (arith, copies-append id q r)

copies-forget : (id : Text) (q : List Message) → copies id (map forget q) ≡ copies id q
unfolding copies
copies-forget id [] = refl
copies-forget id (m ∷ q) = ground (arith, copies-forget id q)

copies-Permᴰ : {q r : List Message} (id : Text) → Permᴰ q r → copies id q ≡ copies id r
unfolding copies
copies-Permᴰ id Permᴰ.nil = refl
copies-Permᴰ id (Permᴰ.cons e p) = rw (e, copies-Permᴰ id p) refl
copies-Permᴰ id (Permᴰ.swap {a} {b} {l = l} e e1) = rw (sym e, sym e1) (ground arith)
copies-Permᴰ id (Permᴰ.trans p r) = copies-Permᴰ id p ∙ copies-Permᴰ id r

copies-Perm : {q r : List Message} (id : Text) → Perm q r → copies id q ≡ copies id r
copies-Perm {q} {r} id p = ∥∥₁_elim p (ℕ_set (copies id q) (copies id r)) (copies-Permᴰ id)

-- One message more on each side.
pub copies-same :
    (id : Text) (a b : Message) (q r : List Message)
    → Perm (forget a ∷ map forget q) (forget b ∷ map forget r)
    → (if text_beq a.id id then 1 else 0) + copies id q
      ≡ (if text_beq b.id id then 1 else 0) + copies id r
copies-same id a b q r p = omega (
  arith,
  copies-Perm id p,
  copies-cons id (forget a) (map forget q),
  copies-cons id (forget b) (map forget r),
  copies-forget id q,
  copies-forget id r,
)

-- One message more on the right.
pub copies-more :
    (id : Text) (b : Message) (q r : List Message)
    → Perm (map forget q) (forget b ∷ map forget r)
    → copies id q ≡ (if text_beq b.id id then 1 else 0) + copies id r
copies-more id b q r p = omega (
  arith,
  copies-Perm id p,
  copies-cons id (forget b) (map forget r),
  copies-forget id q,
  copies-forget id r,
)

-- One message more on the left.
pub copies-fewer :
    (id : Text) (b : Message) (q r : List Message)
    → Perm (forget b ∷ map forget q) (map forget r)
    → copies id q ≤ copies id r
copies-fewer id b q r p = omega (
  arith,
  copies-Perm id p,
  copies-cons id (forget b) (map forget q),
  copies-forget id q,
  copies-forget id r,
)

NotAfter-failed :
    (a b : Message) (s t : Bool)
    → NotAfter a b
    → NotAfter
        (if s then record a { status = proposed_failed } else a)
        (if t then record b { status = proposed_failed } else b)
unfolding before
NotAfter-failed a b true true h = h
NotAfter-failed a b true false h = h
NotAfter-failed a b false true h = h
NotAfter-failed a b false false h = h

-- The status of a message has no part in the order.
pub failed-IsQueue :
    (p : ℕ) (q : Queue)
    → IsQueue q
    → p < length q
    → let q1 = set q p (record (at q p) { status = proposed_failed }) in
      IsQueue q1 × ((id : Text) → copies id q1 ≡ copies id q)
failed-IsQueue p q v hp =
    let m1 : Message = record (at q p) { status = proposed_failed } in
    (
      record {
        heap = λ c h r.
            let hc : c < length q = omega (arith, length-set q p m1) in
            subst (λ x. NotAfter x (at (set q p m1) c)) (sym (at_failed (parent c)))
              (subst
                (NotAfter (
                  if p == parent c
                  then record (at q (parent c)) { status = proposed_failed }
                  else at q (parent c)))
                (sym (at_failed c))
                (NotAfter-failed (at q (parent c)) (at q c) (p == parent c) (p == c)
                  (v.heap c h hc)));
        placed =
            PlacedFrom-set 0 p m1 q v.placed (placed_at 0 p q (at q p) v.placed (elem-at q p hp));
      },
      λ id. omega (arith, copies-same id (at q p) m1 (set q p m1) q (set-same q p m1 hp)),
    )
  where
    at_failed :
        (c : ℕ)
        → at (set q p (record (at q p) { status = proposed_failed })) c
          ≡ (if p == c then record (at q c) { status = proposed_failed } else at q c)
    at_failed c =
        at-set q p c (record (at q p) { status = proposed_failed }) hp
        ∙ elim (Bool-cases (p == c)) [
          | inl same ↦
              let e : p ≡ c = ground arith in
              rw same (ap (λ k. record (at q k) { status = proposed_failed }) e)
          | inr other ↦ rw other
        ]
