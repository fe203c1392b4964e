-- ===== src/Multicast/Isis/Once/Dropping.antt =====
-- multicast-demo/types/multicast.go: the messages of a failed node leave the queue, and nothing is
-- delivered.
use dist_sys_demos.Base.{
  ℕ, zero, suc, ◌≤◌, ◌≡◌, refl, subst, Bool, ◌&&◌, Option, none, some, List, [], ◌∷◌, ◌++◌, length,
  set, get_elem?, get_elem?-lt, arith, ◌==◌, Bool-cases, Option-cases, inl, inr,
}
use dist_sys_demos.Base.Dict.{Dict, lookup, insert}
use dist_sys_demos.Base.Text.{Text, text_eq, text_beq}
use dist_sys_demos.Multicast.Queue.{proposed_failed, Message, Queue}
use dist_sys_demos.Multicast.Queue.Order.{at, at-of_elem}
use dist_sys_demos.Multicast.Queue.Sorted.{IsQueue}
use dist_sys_demos.Multicast.Queue.Removal.{remove-TakesOut}
use dist_sys_demos.Multicast.Queue.Copies.{copies, copies-fewer, failed-IsQueue}
use dist_sys_demos.Multicast.Members.{
  Multicast, Sending, cast_to, or_zero, has_encoder, is_proposed, drop_failed, note_failed,
}
use dist_sys_demos.Multicast.Isis.Sends.{heard}
use dist_sys_demos.Multicast.Isis.Once.{Moves, Moves-trans, Moves-quiet}

-- A heap of some of the messages is left, and the application hears nothing.
abbrev Drops : Queue → Option (Queue × List Sending) → Type 0
Drops q none = Unit
Drops q (some (q1, sent)) =
    IsQueue q1 × ((id : Text) → copies id q1 ≤ copies id q) × (heard sent ≡ [])

Drops-after :
    (q q1 : Queue) (r : Option (Queue × List Sending))
    → ((id : Text) → copies id q1 ≤ copies id q)
    → Drops q1 r
    → Drops q r
Drops-after q q1 none fewer h = tt
Drops-after q q1 (some (q2, sent)) fewer (v, h, quiet) =
    (v, λ id. omega (arith, h id, fewer id), quiet)

Drops-cast :
    (q : Queue) (k : Text) (item : Message) (r : Option (Queue × List Sending))
    → Drops q r
    → Drops q (elim r [ none ↦ none | some (q1, sent) ↦ some (q1, cast_to k item ∷ sent) ])
Drops-cast q k item none h = tt
Drops-cast q k item (some (q1, sent)) h = h

drop_failed-Drops :
    (rounds k : ℕ) (n_fail : Text) (encs : List Text) (q : Queue)
    → IsQueue q
    → Drops q (drop_failed rounds k n_fail encs q)
unfolding drop_failed
drop_failed-Drops zero k n_fail encs q v = (v, λ id. omega arith, refl)
drop_failed-Drops (suc rounds) k n_fail encs q v = elim (Option-cases (get_elem? q k)) [
  | inl gone ↦ rw (gone, drop_failed) (drop_failed-Drops rounds (suc k) n_fail encs q v)
  | inr (x, e) ↦ elim (Bool-cases (is_proposed x.status)) [
    | inr other ↦ rw (e, other, drop_failed) (drop_failed-Drops rounds (suc k) n_fail encs q v)
    | inl waits ↦ elim (Bool-cases (text_beq x.node_id n_fail)) [
      | inl failed ↦
          let (q1, e1, w, same) = remove-TakesOut k q v (get_elem?-lt q k x e) in
          rw (e, waits, failed, e1, drop_failed)
            (Drops-after q q1 _ (λ id. copies-fewer id (at q k) q1 q same)
              (drop_failed-Drops rounds (suc k) n_fail encs q1 w))
      | inr alive ↦
          let x1 : Message = record x { status = proposed_failed } in
          let here : at q k ≡ x = at-of_elem q k x e in
          let kept =
            subst
              (λ (y : Message).
                let q1 = set q k (record y { status = proposed_failed }) in
                IsQueue q1 × ((id : Text) → copies id q1 ≡ copies id q))
              here (failed-IsQueue k q v (get_elem?-lt q k x e)) in
          elim (Bool-cases (has_encoder x.node_id encs)) [
            | inr missing ↦ rw (e, waits, alive, missing, drop_failed) tt
            | inl there ↦
                rw (e, waits, alive, there, drop_failed)
                  (Drops-cast q x.node_id x1 (drop_failed rounds (suc k) n_fail encs (set q k x1)) (
                    Drops-after q (set q k x1) _ (λ id. omega (arith, kept.1 id))
                      (drop_failed-Drops rounds (suc k) n_fail encs (set q k x1) kept.0)))
          ]
    ]
  ]
]

pub note_failed-Moves :
    (nodes : Dict Text Bool) (encs : List Text) (m : Multicast)
    → IsQueue m.pq
    → Moves m (note_failed nodes encs m)
unfolding note_failed
note_failed-Moves [] encs m v = Moves-quiet m m [] v refl refl (λ id. omega arith)
note_failed-Moves ((n_fail, f) ∷ nodes) encs m v =
    elim (Bool-cases (f && (or_zero (lookup n_fail m.message_n_check) == 0))) [
      | inr old ↦ rw (old, note_failed) (note_failed-Moves nodes encs m v)
      | inl new ↦
          rw (new, note_failed)
            (go (drop_failed (length m.pq) 0 n_fail encs m.pq)
              (drop_failed-Drops (length m.pq) 0 n_fail encs m.pq v)
              (λ q1 w.
                note_failed-Moves nodes encs
                  (record m { message_n_check = insert n_fail 1 m.message_n_check; pq = q1 }) w))
    ]
  where
    go :
        (r : Option (Queue × List Sending))
        → Drops m.pq r
        → ((q1 : Queue)
            → IsQueue q1
            → let m1 = record m { message_n_check = insert n_fail 1 m.message_n_check; pq = q1 } in
              Moves m1 (note_failed nodes encs m1))
        → Moves m (elim r [
          | none ↦ none
          | some (q1, sent) ↦
              elim (note_failed nodes encs
                (record m { message_n_check = insert n_fail 1 m.message_n_check; pq = q1 })) [
                  | none ↦ none
                  | some (m1, more) ↦ some (m1, sent ++ more)
                ]
        ])
    go none h ih = tt
    go (some (q1, sent)) (w, fewer, quiet) ih =
        let m1 : Multicast = record m {
          message_n_check = insert n_fail 1 m.message_n_check;
          pq = q1;
        } in
        Moves-trans m m1 sent (note_failed nodes encs m1) (Moves-quiet m m1 sent w quiet refl fewer)
          (ih q1 w)
