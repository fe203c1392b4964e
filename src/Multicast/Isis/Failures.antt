-- ===== src/Multicast/Isis/Failures.antt =====
-- multicast-demo/types/multicast.go: what `ISIS` does with the messages of a node that has failed.
use dist_sys_demos.Base.{
  ℕ, ◌≡◌, refl, ap, ◌∙◌, Bool, true, false, ◌&&◌, ◌==◌, none, some, List, [], ◌∷◌, ◌++◌, Bool-cases,
  inl, inr,
}
use dist_sys_demos.Base.Text.{text_eq, Text, text_beq_iff}
use dist_sys_demos.Multicast.Queue.{Message, agreed, find_by_id, proposed}
use dist_sys_demos.Multicast.Queue.Places.{PlacedFrom}
use dist_sys_demos.Multicast.Queue.Heap.{remove-first, remove-only}
use dist_sys_demos.Multicast.Members.{Multicast, Sending, or_zero, drop_failed, note_failed}
use dist_sys_demos.Multicast.Isis.{receive_agreed, dispatch, isis}
use dist_sys_demos.Base.Dict.{Dict, lookup, insert}

-- Of two messages of a failed node, both of them waiting, only the first is dropped: `Remove` moves
-- the second to the place that the loop has just passed.
pub drop_failed-skips :
    (n_fail : Text) (encs : List Text) (x y : Message)
    → PlacedFrom 0 (x ∷ y ∷ [])
    → x.status ≡ proposed
    → y.status ≡ proposed
    → x.node_id ≡ n_fail
    → y.node_id ≡ n_fail
    → drop_failed 2 0 n_fail encs (x ∷ y ∷ []) ≡ some (record y { index = some 0 } ∷ [], [])
unfolding drop_failed
drop_failed-skips n_fail encs x y placed sx sy nx ny =
    rw (sx, (text_beq_iff x.node_id n_fail).1 nx, remove-first x y placed.0, drop_failed)

-- The nodes that have not failed, or whose failure has been noted.
abbrev pub AllNoted : Dict Text ℕ → Dict Text Bool → Type 0
AllNoted checks [] = Unit
AllNoted checks ((k, f) ∷ nodes) =
    ((f && (or_zero (lookup k checks) == 0)) ≡ false) × AllNoted checks nodes

note_failed-noted :
    (before after : Dict Text Bool) (encs : List Text) (m : Multicast)
    → AllNoted m.message_n_check before
    → note_failed (before ++ after) encs m ≡ note_failed after encs m
unfolding note_failed
note_failed-noted [] after encs m h = refl
note_failed-noted ((k, f) ∷ before) after encs m (h, rest) =
    rw (h, note_failed) (note_failed-noted before after encs m rest)

-- An empty queue stays empty.
note_failed-empty :
    (nodes : Dict Text Bool) (encs : List Text) (m : Multicast)
    → m.pq ≡ []
    → (m1 : Multicast) × (sent : List Sending) × (note_failed nodes encs m ≡ some (m1, sent))
      × (m1.pq ≡ [])
unfolding note_failed drop_failed
note_failed-empty [] encs m h = (m, [], refl, h)
note_failed-empty ((k, f) ∷ nodes) encs m h =
    elim (Bool-cases (f && (or_zero (lookup k m.message_n_check) == 0))) [
      | inl new ↦
          let m2 = record m { message_n_check = insert k 1 m.message_n_check; pq = [] } in
          let (m1, sent, e, kept) = note_failed-empty nodes encs m2 refl in
          (m1, sent, rw (new, h, e, note_failed) refl, kept)
      | inr noted ↦
          let (m1, sent, e, kept) = note_failed-empty nodes encs m h in
          (m1, sent, rw (noted, note_failed) e, kept)
    ]

-- The only message of the queue is one of a node whose failure is new: it is dropped.
note_failed-drops :
    (after : Dict Text Bool) (encs : List Text) (x : Message) (m : Multicast)
    → m.pq ≡ x ∷ []
    → PlacedFrom 0 (x ∷ [])
    → x.status ≡ proposed
    → or_zero (lookup x.node_id m.message_n_check) ≡ 0
    → (m1 : Multicast) × (sent : List Sending) × (note_failed ((x.node_id, true) ∷ after) encs m
        ≡ some (m1, sent))
      × (m1.pq ≡ [])
unfolding note_failed drop_failed
note_failed-drops after encs x m eq placed sx fresh =
    let m2 = record m { message_n_check = insert x.node_id 1 m.message_n_check; pq = [] } in
    let (m1, sent, e, kept) = note_failed-empty after encs m2 refl in
    (
      m1,
      sent,
      rw (fresh, eq, note_failed)
          (rw (sx, (text_beq_iff x.node_id x.node_id).1 refl, remove-only x placed.0, note_failed)
            (rw (e, note_failed) refl)),
      kept,
    )

-- A node panics on an agreement for a message of a failed node, if it is the only message in the
-- queue and the failure has not been noted yet: the message is dropped first, and then not found.
-- Nodes that come before the failed one in the map are alive, or their failure has been noted;
-- those that come after it may be in any state.
pub isis-dropped :
    (encs : List Text) (before after : Dict Text Bool) (x message : Message) (m : Multicast)
    → m.pq ≡ x ∷ []
    → PlacedFrom 0 (x ∷ [])
    → x.status ≡ proposed
    → m.nfail_check ≡ before ++ (x.node_id, true) ∷ after
    → AllNoted m.message_n_check before
    → or_zero (lookup x.node_id m.message_n_check) ≡ 0
    → message.status ≡ agreed
    → isis encs message m ≡ none
unfolding isis dispatch receive_agreed find_by_id
isis-dropped encs before after x message m eq placed sx fails noted fresh sm =
    let (m1, sent, e, gone) = note_failed-drops after encs x m eq placed sx fresh in
    let run : note_failed m.nfail_check encs m ≡ some (m1, sent) =
      ap (λ nodes. note_failed nodes encs m) fails
      ∙ note_failed-noted before ((x.node_id, true) ∷ after) encs m noted
      ∙ e in
    rw (run, sm, isis) (rw (gone, isis) refl)
