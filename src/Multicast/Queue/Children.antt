-- ===== src/Multicast/Queue/Children.antt =====
-- multicast-demo/types/priority_queue.go: the child of a node that comes first.
use dist_sys_demos.Base.{
  ◌⊎◌, ℕ, suc, ◌+◌, ◌-◌, ◌*◌, ◌/◌, ◌≤◌, ◌<◌, ◌≡◌, refl, sym, subst, some, length, arith, ltb, ◌==◌,
  if◌then◌else◌, Bool-cases, inl, inr,
}
use dist_sys_demos.Multicast.Queue.{Message, Queue, before, less, child}
use dist_sys_demos.Multicast.Queue.Order.{at, NotAfter, NotAfter-of_before, NotAfter-refl, elem-at}

abbrev pub parent : ℕ → ℕ
parent c = (c - 1) / 2

pub less_lem :
    (i j : ℕ) (q : Queue)
    → i < length q
    → j < length q
    → less i j q ≡ some (before (at q i) (at q j))
unfolding less
less_lem i j q hi hj = rw (elem-at q i hi, elem-at q j hj, less)

-- `j` is the child of `i` that comes first.
pub record IsFirstChild (n : ℕ) (q : Queue) (i j : ℕ) : Type 0 where
  pub inside : j < n
  pub below : (j ≡ 2 * i + 1) ⊎ (j ≡ 2 * i + 2)
  pub first : (c : ℕ) → 0 < c → c < n → parent c ≡ i → NotAfter (at q j) (at q c)

two_children :
    (n : ℕ) (q : Queue) (i : ℕ)
    → suc (2 * i + 1) < n
    → let j =
        if before (at q (suc (2 * i + 1))) (at q (2 * i + 1)) then suc (2 * i + 1) else 2 * i + 1 in
      IsFirstChild n q i j
two_children n q i two = elim (Bool-cases (before (at q (suc (2 * i + 1))) (at q (2 * i + 1)))) [
  | inl right ↦ rw right (record {
    inside = two;
    below = inr (omega arith);
    first = λ c p r s.
        family (at q (suc (2 * i + 1))) c p s
          (NotAfter-of_before (at q (suc (2 * i + 1))) (at q (2 * i + 1)) right)
          (NotAfter-refl (at q (suc (2 * i + 1))));
  })
  | inr left ↦ rw left (record {
    inside = omega arith;
    below = inl refl;
    first = λ c p r s. family (at q (2 * i + 1)) c p s (NotAfter-refl (at q (2 * i + 1))) left;
  })
]
  where
    family :
        (m : Message) (c : ℕ)
        → 0 < c
        → parent c ≡ i
        → NotAfter m (at q (2 * i + 1))
        → NotAfter m (at q (suc (2 * i + 1)))
        → NotAfter m (at q c)
    family m c p s a b = elim (Bool-cases (c == 2 * i + 1)) [
      | inl l ↦ let e : c ≡ 2 * i + 1 = ground arith in subst (λ k. NotAfter m (at q k)) (sym e) a
      | inr r ↦
          let e : c ≡ suc (2 * i + 1) = ground arith in subst (λ k. NotAfter m (at q k)) (sym e) b
    ]

pub child_lem :
    (n : ℕ) (q : Queue) (i : ℕ)
    → 2 * i + 1 < n
    → n ≤ length q
    → (j : ℕ) × (child n (2 * i + 1) q ≡ some j) × IsFirstChild n q i j
unfolding child
child_lem n q i hi hn = elim (Bool-cases (ltb (suc (2 * i + 1)) n)) [
  | inl two ↦ (
    if before (at q (suc (2 * i + 1))) (at q (2 * i + 1)) then suc (2 * i + 1) else 2 * i + 1,
    rw (two, less_lem (suc (2 * i + 1)) (2 * i + 1) q (ground arith) (omega arith), child),
    two_children n q i (ground arith),
  )
  | inr one ↦ (
    2 * i + 1,
    rw one,
    record {
      inside = hi;
      below = inl refl;
      first = λ c p r s.
          let e : c ≡ 2 * i + 1 = ground arith in
          subst (λ k. NotAfter (at q (2 * i + 1)) (at q k)) (sym e)
            (NotAfter-refl (at q (2 * i + 1)));
    },
  )
]
