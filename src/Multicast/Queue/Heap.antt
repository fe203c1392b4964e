-- ===== src/Multicast/Queue/Heap.antt =====
-- multicast-demo/types/priority_queue.go: `Push`, `Pop`, `Update` and `Remove` return, and keep every
-- message's position in its index.
use dist_sys_demos.Base.{
  ℕ, suc, ◌-◌, ◌≤◌, ◌<◌, ◌≡◌, refl, sym, ap, ◌∙◌, true, false, Option, none, some, [], ◌∷◌, ◌++◌,
  length, take, set, get_elem?, arith, ltb, ◌==◌, Bool-cases, inl, inr, get_elem?-some, length-take,
  length-set,
}
use dist_sys_demos.Multicast.Queue.{
  Message, Queue, swap, append_message, drop_last, up, down, settle, push, pop, fix, remove_at,
  update, remove,
}
use dist_sys_demos.Multicast.Queue.Sift.{up-Keeps, KeepsAt, KeepsFrom, down-Keeps}
use dist_sys_demos.Multicast.Queue.Places.{
  PlacedFrom, Keeps, PlacedFrom-set, PlacedFrom-snoc, PlacedFrom-take, placed_at, swap-Keeps,
  swap-moves,
}

-- The operation returns the message at a place, with its index reset, and a queue that is one
-- shorter and whose messages carry their positions.
abbrev pub Takes : ℕ → Queue → Option (Message × Queue) → Type 0
Takes p q r =
    (m : Message) × (q1 : Queue) × (get_elem? q p ≡ some m)
    × (r ≡ some (record m { index = none }, q1))
    × PlacedFrom 0 q1
    × (length q1 ≡ length q - 1)

-- The message at a place of one queue stands at a place of another, but for its index.
abbrev MovedTo : ℕ → Queue → ℕ → Queue → Type 0
MovedTo p q n q1 =
    (m : Message) × (k : Option ℕ) × (get_elem? q p ≡ some m)
    × (get_elem? q1 n ≡ some (record m { index = k }))

-- A message that is added to a queue whose messages carry their positions gets its position too;
-- the others keep carrying theirs, and the queue is one longer.
pub push-Keeps : (m : Message) (q : Queue) → PlacedFrom 0 q → Keeps (suc (length q)) (push m q)
unfolding push append_message
push-Keeps m q h =
    let m1 : Message = record m { index = some (length q) } in
    let (h1, l1) = PlacedFrom-snoc 0 q m1 h (ap (λ (k : ℕ). some k) (omega arith)) in
    let (q2, e2, h2, l2, same) =
      up-Keeps (suc (length q)) (length q) (q ++ m1 ∷ []) (omega arith) (omega (arith, l1)) h1 in
    (q2, e2, h2, l2 ∙ l1)

settle-Keeps :
    (i n : ℕ) (q : Queue) → i < n → n ≤ length q → PlacedFrom 0 q → KeepsFrom n q (settle i n q)
unfolding settle
settle-Keeps i n q hi hl h = go (down-Keeps (suc n) i n q (omega arith) (omega arith) hl h)
  where
    rise :
        (q1 : Queue) (k : ℕ)
        → down (suc n) i n q ≡ some (q1, k)
        → ltb i k ≡ false
        → length q1 ≡ length q
        → ((p : ℕ) → n ≤ p → get_elem? q1 p ≡ get_elem? q p)
        → KeepsFrom (suc i) q1 (up (suc i) i q1)
        → KeepsFrom n q (settle i n q)
    rise q1 k e stayed l1 same (q2, e2, h2, l2, above) =
        (q2, rw (e, stayed, settle) e2, h2, l2 ∙ l1, λ p lo. above p (omega arith) ∙ same p lo)

    go : KeepsAt n q (down (suc n) i n q) → KeepsFrom n q (settle i n q)
    go (q1, k, e, h1, l1, same) = elim (Bool-cases (ltb i k)) [
      | inl moved ↦ (q1, rw (e, moved, settle), h1, l1, same)
      | inr stayed ↦
          rise q1 k e stayed l1 same (up-Keeps (suc i) i q1 (omega arith) (omega (arith, l1)) h1)
    ]

drop_last-Takes :
    (p : ℕ) (q q1 : Queue)
    → 0 < length q1
    → length q1 ≡ length q
    → PlacedFrom 0 q1
    → MovedTo p q (length q - 1) q1
    → Takes p q (drop_last q1)
unfolding drop_last
drop_last-Takes p q q1 full l h (m, k, e, e1) = (
  m,
  take (length q1 - 1) q1,
  e,
  rw (ap (λ n. get_elem? q1 (n - 1)) l ∙ e1, drop_last),
  PlacedFrom-take 0 (length q1 - 1) q1 h,
  omega (arith, length-take (length q1 - 1) q1),
)

-- From a queue that is not empty and whose messages carry their positions, `Pop` takes the first
-- message; the queue is one shorter, and its messages carry their positions.
pub pop-Takes : (q : Queue) → 0 < length q → PlacedFrom 0 q → Takes 0 q (pop q)
unfolding pop
pop-Takes q full h = go (swap-Keeps 0 (length q - 1) q full (omega arith) h)
  where
    last :
        (q1 : Queue)
        → swap 0 (length q - 1) q ≡ some q1
        → length q1 ≡ length q
        → KeepsAt (length q - 1) q1 (down (suc (length q)) 0 (length q - 1) q1)
        → Takes 0 q (pop q)
    last q1 e1 l1 (q2, k, e2, h2, l2, same) =
        let (m, em, em1) = swap-moves 0 (length q - 1) q q1 e1 (omega arith) in
        rw (e1, e2, pop)
          (drop_last-Takes 0 q q2 (omega (arith, l1, l2)) (l2 ∙ l1) h2
            (m, some (length q - 1), em, same (length q - 1) (omega arith) ∙ em1))

    go : Keeps (length q) (swap 0 (length q - 1) q) → Takes 0 q (pop q)
    go (q1, e1, h1, l1) = last q1 e1 l1 (
        down-Keeps (suc (length q)) 0 (length q - 1) q1 (omega arith) (omega arith)
          (omega (arith, l1)) h1)

-- A new priority for the message at a place of a queue whose messages carry their positions:
-- `Update` returns, the messages still carry their positions, and the queue keeps its length.
pub update-Keeps :
    (p priority : ℕ) (q : Queue)
    → p < length q
    → PlacedFrom 0 q
    → Keeps (length q) (update p priority q)
unfolding update fix
update-Keeps p priority q inside h = go (get_elem?-some q p inside)
  where
    go : (m : Message) × (get_elem? q p ≡ some m) → Keeps (length q) (update p priority q)
    go (m, e) =
        let m1 : Message = record m { priority = priority } in
        let q1 = set q p m1 in
        let l1 = length-set q p m1 in
        let at : m.index ≡ some p = placed_at 0 p q m h e ∙ ap (λ (k : ℕ). some k) (omega arith) in
        let (q2, e2, h2, l2, same) =
          settle-Keeps p (length q1) q1 (omega (arith, l1)) (omega arith)
            (PlacedFrom-set 0 p m1 q h (placed_at 0 p q m h e)) in
        (q2, rw (e, at, update) e2, h2, l2 ∙ l1)

remove_at-Takes : (i : ℕ) (q : Queue) → i < length q → PlacedFrom 0 q → Takes i q (remove_at i q)
unfolding remove_at
remove_at-Takes i q inside h = elim (Bool-cases (i == length q - 1)) [
  | inl last ↦ at_end last (get_elem?-some q i inside)
  | inr inner ↦ go inner (swap-Keeps i (length q - 1) q inside (omega arith) h)
]
  where
    at_end :
        (i == length q - 1) ≡ true
        → (m : Message) × (get_elem? q i ≡ some m)
        → Takes i q (remove_at i q)
    at_end last (m, e) =
        let here : i ≡ length q - 1 = ground arith in
        rw last (
          drop_last-Takes i q q (omega arith) refl h
            (m, m.index, e, ap (get_elem? q) (sym here) ∙ e))

    shorten :
        (i == length q - 1) ≡ false
        → (q1 : Queue) → swap i (length q - 1) q ≡ some q1
        → length q1 ≡ length q
        → KeepsFrom (length q - 1) q1 (settle i (length q - 1) q1)
        → Takes i q (remove_at i q)
    shorten inner q1 e1 l1 (q2, e2, h2, l2, same) =
        let (m, em, em1) = swap-moves i (length q - 1) q q1 e1 (omega arith) in
        rw (inner, e1, e2)
          (drop_last-Takes i q q2 (omega (arith, l1, l2)) (l2 ∙ l1) h2
            (m, some (length q - 1), em, same (length q - 1) (omega arith) ∙ em1))

    go :
        (i == length q - 1) ≡ false
        → Keeps (length q) (swap i (length q - 1) q)
        → Takes i q (remove_at i q)
    go inner (q1, e1, h1, l1) =
        shorten inner q1 e1 l1
          (settle-Keeps i (length q - 1) q1 (ground arith) (omega (arith, l1)) h1)

-- From a queue whose messages carry their positions `Remove` takes the message at the given place;
-- the queue is one shorter, and its messages carry their positions.
pub remove-Takes : (p : ℕ) (q : Queue) → p < length q → PlacedFrom 0 q → Takes p q (remove p q)
unfolding remove
remove-Takes p q inside h = go (get_elem?-some q p inside)
  where
    go : (m : Message) × (get_elem? q p ≡ some m) → Takes p q (remove p q)
    go (m, e) =
        let at : m.index ≡ some p = placed_at 0 p q m h e ∙ ap (λ (k : ℕ). some k) (omega arith) in
        rw (at_place e at) (remove_at-Takes p q inside h)
      where
        at_place : get_elem? q p ≡ some m → m.index ≡ some p → remove p q ≡ remove_at p q
        at_place e1 e2 = rw (e1, e2, remove)

-- From a queue of two the first message is removed.
pub remove-first :
    (x y : Message)
    → x.index ≡ some 0
    → remove 0 (x ∷ y ∷ []) ≡ some (record x { index = none }, record y { index = some 0 } ∷ [])
unfolding remove remove_at swap settle down up drop_last
remove-first x y at = ground (arith, at)

-- The queue of one message becomes empty.
pub remove-only :
    (x : Message) → x.index ≡ some 0 → remove 0 (x ∷ []) ≡ some (record x { index = none }, [])
unfolding remove remove_at drop_last
remove-only x at = ground (arith, at)
