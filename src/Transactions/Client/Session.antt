-- ===== src/Transactions/Client/Session.antt =====
-- transactions-demo/client/client.go: which lines `processTransaction` sends.
use dist_sys_demos.Base.{
  ℕ, ◌<◌, ◌≡◌, refl, ap, ◌∙◌, ◌||◌, ◌++◌, map, Bool, true, false, some, List, [], ◌∷◌, length,
  get_elem?, get_elem?-some, arith, if◌then◌else◌, Bool-cases, inl, inr,
}
use dist_sys_demos.Base.Text.{Text, codes, text_beq}
use dist_sys_demos.Transactions.Client.{
  BranchInfo, trim, Round, ClientAction, dial, send, println, is_final, process_transaction,
}

abbrev pub sent : List ClientAction → List Text
sent [] = []
sent (send line ∷ acts) = line ∷ sent acts
sent (dial b ∷ acts) = sent acts
sent (println t ∷ acts) = sent acts

-- The lines up to the first one whose reply ends the transaction, that one included.
abbrev until_final : List Round → List Text
until_final [] = []
until_final (r ∷ rounds) =
    let rest = until_final rounds in trim r.line ∷ (if is_final r.reply then [] else rest)

abbrev pub PicksIn : ℕ → List Round → Type 0
PicksIn n [] = Unit
PicksIn n (r ∷ rounds) = (r.pick < n) × PicksIn n rounds

step :
    (branches : List BranchInfo) (r : Round) (rounds : List Round) (b : BranchInfo)
    (more : List ClientAction)
    → get_elem? branches r.pick ≡ some b
    → process_transaction branches true rounds ≡ some more
    → sent more ≡ until_final rounds
    → (connected : Bool)
    → (if text_beq (trim r.line) (codes "BEGIN") then true else connected) ≡ true
    → (acts : List ClientAction) × (process_transaction branches connected (r ∷ rounds) ≡ some acts)
      × (sent acts ≡ until_final (r ∷ rounds))
unfolding process_transaction
step branches r rounds b more e run same connected go =
    elim (Bool-cases (text_beq (trim r.line) (codes "BEGIN"))) [
      | inl begin ↦ elim (Bool-cases (is_final r.reply)) [
        | inl final ↦ (
          dial b ∷ send (trim r.line) ∷ println r.reply ∷ [],
          ground (arith, e, run),
          ground arith,
        )
        | inr other ↦ (
          dial b ∷ send (trim r.line) ∷ println r.reply ∷ more,
          ground (arith, e, run),
          ground (arith, same),
        )
      ]
      | inr later ↦ elim (Bool-cases (is_final r.reply)) [
        | inl final ↦
            (send (trim r.line) ∷ println r.reply ∷ [], ground (arith, e, run), ground arith)
        | inr other ↦ (
          send (trim r.line) ∷ println r.reply ∷ more,
          ground (arith, e, run),
          ground (arith, same),
        )
      ]
    ]

process_transaction-until_final :
    (branches : List BranchInfo) (rounds : List Round)
    → PicksIn (length branches) rounds
    → (acts : List ClientAction) × (process_transaction branches true rounds ≡ some acts)
      × (sent acts ≡ until_final rounds)
unfolding process_transaction
process_transaction-until_final branches [] h = ([], refl, refl)
process_transaction-until_final branches (r ∷ rounds) h =
    let (b, e) = get_elem?-some branches r.pick h.0 in
    let (more, run, same) = process_transaction-until_final branches rounds h.1 in
    step branches r rounds b more e run same true
      (elim (Bool-cases (text_beq (trim r.line) (codes "BEGIN"))) [
        | inl begin ↦ rw begin
        | inr later ↦ rw later
      ])

-- The replies that end a transaction, as the server writes them, and the others.
abbrev pub ends : Text → Bool
ends reply =
    text_beq reply (codes "COMMIT OK")
    || (text_beq reply (codes "ABORTED") || text_beq reply (codes "NOT FOUND, ABORTED"))

abbrev pub NoneEnds : List Round → Type 0
NoneEnds [] = Unit
NoneEnds (r ∷ rounds) = (ends r.reply ≡ false) × NoneEnds rounds

is_final-ends : (reply : Text) → is_final reply ≡ ends reply
is_final-ends reply = ground arith

until_final-ends :
    (before after : List Round) (last : Round)
    → NoneEnds before
    → ends last.reply ≡ true
    → until_final (before ++ last ∷ after) ≡ map (λ r. trim r.line) (before ++ last ∷ [])
until_final-ends [] after last h e = rw (is_final-ends last.reply ∙ e) refl
until_final-ends (r ∷ before) after last h e =
    rw (is_final-ends r.reply ∙ h.0)
      (ap (λ (ls : List Text). trim r.line ∷ ls) (until_final-ends before after last h.1 e))

-- For a client that is connected, and whose picks are servers of its configuration: if COMMIT OK,
-- ABORTED or NOT FOUND, ABORTED comes as the reply to a line, and as the reply to none before it, the
-- client sends the lines up to that one, trimmed and in their order, and none behind it.
pub process_transaction-ends :
    (branches : List BranchInfo) (before after : List Round) (last : Round)
    → PicksIn (length branches) (before ++ last ∷ after)
    → NoneEnds before
    → ends last.reply ≡ true
    → (acts : List ClientAction) × (process_transaction branches true (before ++ last ∷ after)
        ≡ some acts)
      × (sent acts ≡ map (λ r. trim r.line) (before ++ last ∷ []))
process_transaction-ends branches before after last h others e =
    let (acts, run, same) = process_transaction-until_final branches (before ++ last ∷ after) h in
    (acts, run, same ∙ until_final-ends before after last others e)
