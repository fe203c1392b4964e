-- ===== src/Multicast/Node/Lines.antt =====
-- A console's line and the line that the ledger prints are read and written alike.
use dist_sys_demos.Base.{arith, ◌≡◌, refl, true, false, some, List, [], ◌∷◌, ◌++◌}
use dist_sys_demos.Base.Text.{Text, codes, split, itoa, text_beq}
use dist_sys_demos.Base.Text.Parts.{Lacks, split-last, split-word, trim_newline-line}
use dist_sys_demos.Base.Text.Numerals.{atoi-itoa, itoa-Lacks}
use dist_sys_demos.Multicast.Ledger.{Transaction, deposit_tx, transfer_tx, announce}
use dist_sys_demos.Multicast.Node.{Tx, parse_tx, parse_deposit, parse_transfer}

-- No name of the transaction has a space.
abbrev pub Spaceless : Transaction → Type 0
Spaceless (deposit_tx name amount) = Lacks 32 name
Spaceless (transfer_tx src dest amount) = Lacks 32 src × Lacks 32 dest

-- What a message says of the transaction.
abbrev pub tx_of : Transaction → Tx
tx_of (deposit_tx name amount) = record { is_deposit = true; names = name ∷ []; amount = amount }
tx_of (transfer_tx src dest amount) = record {
  is_deposit = false;
  names = src ∷ dest ∷ [];
  amount = amount;
}

-- The words of a printed line.
abbrev words : Transaction → List Text
words (deposit_tx name amount) = codes "DEPOSIT" ∷ name ∷ itoa amount ∷ []
words (transfer_tx src dest amount) = codes "TRANSFER" ∷ src ∷ codes "->" ∷ dest ∷ itoa amount ∷ []

split-announce : (t : Transaction) → Spaceless t → split 32 (announce t) ≡ words t
unfolding announce
split-announce (deposit_tx name amount) h =
    rw
      (
        split-word 32 (codes "DEPOSIT") (name ++ (codes " " ++ itoa amount)) refl (ground arith),
        split-word 32 name (itoa amount) refl h,
        split-last 32 (itoa amount) (itoa-Lacks amount),
      )
      refl
split-announce (transfer_tx src dest amount) (h, k) =
    rw
      (
        split-word 32 (codes "TRANSFER")
            (src ++ (codes " -> " ++ (dest ++ (codes " " ++ itoa amount)))) refl (ground arith),
        split-word 32 src (codes "-> " ++ (dest ++ (codes " " ++ itoa amount))) refl h,
        split-word 32 (codes "->") (dest ++ (codes " " ++ itoa amount)) refl (ground arith),
        split-word 32 dest (itoa amount) refl k,
        split-last 32 (itoa amount) (itoa-Lacks amount),
      )
      refl

-- The console reads the line that is printed of a transaction, with its newline, as that transaction,
-- if no name in it has a space.
pub parse_tx-announce :
    (t : Transaction) → Spaceless t → parse_tx (announce t ++ 10 ∷ []) ≡ some (tx_of t)
unfolding parse_tx parse_deposit parse_transfer text_beq
parse_tx-announce (deposit_tx name amount) h =
    rw
      (
        trim_newline-line (announce (deposit_tx name amount)),
        split-announce (deposit_tx name amount) h,
        atoi-itoa amount,
      )
      refl
parse_tx-announce (transfer_tx src dest amount) h =
    rw
      (
        trim_newline-line (announce (transfer_tx src dest amount)),
        split-announce (transfer_tx src dest amount) h,
        atoi-itoa amount,
      )
      refl
