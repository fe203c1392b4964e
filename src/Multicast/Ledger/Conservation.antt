-- ===== src/Multicast/Ledger/Conservation.antt =====
-- multicast-demo/types/application.go: money is neither made nor lost.
use dist_sys_demos.Base.{◌≡◌, sym, ap, ◌∙◌, List, [], ◌∷◌, Option-cases, Bool-cases, inl, inr}
use dist_sys_demos.Base.Dict.{lookup, insert, lookup-cons, lookup-nil, insert-nil, insert-cons}
use dist_sys_demos.Base.Text.{Text, text_eq, text_beq}
use dist_sys_demos.Base.Int.{ℤ, pos, ◌+ℤ◌, ◌-ℤ◌, ltb_ℤ, int_laws}
use dist_sys_demos.Multicast.Ledger.{
  balance_at, Accounts, deposit, transfer, Transaction, deposit_tx, transfer_tx, apply_tx,
  listen_from,
}

abbrev pub total : Accounts → ℤ
total [] = pos 0
total ((k, v) ∷ m) = v +ℤ total m

-- The balance of an account, zero if it is not there.
abbrev pub balance_of : Accounts → Text → ℤ
balance_of accts a = balance_at (lookup a accts)

regroup : (w a b t v : ℤ) → a +ℤ b ≡ t +ℤ v → (w +ℤ a) +ℤ b ≡ (w +ℤ t) +ℤ v
regroup w a b t v h = +ℤ_assoc w a b ∙ ap (λ x. w +ℤ x) h ∙ sym (+ℤ_assoc w t v)
  where
    +ℤ_assoc : (x y z : ℤ) → (x +ℤ y) +ℤ z ≡ x +ℤ (y +ℤ z)
    +ℤ_assoc x y z = omega int_laws

-- From `a + b = t + (b + v)` to `a = t + v`.
cancel : (a b t v : ℤ) → a +ℤ b ≡ t +ℤ (b +ℤ v) → a ≡ t +ℤ v
cancel a b t v h = back a b ∙ ap (λ x. x -ℤ b) h ∙ forth t b v
  where
    back : (x y : ℤ) → x ≡ (x +ℤ y) -ℤ y
    back x y = omega int_laws

    forth : (x y z : ℤ) → (x +ℤ (y +ℤ z)) -ℤ y ≡ x +ℤ z
    forth x y z = omega int_laws

total-insert :
    (k : Text) (v : ℤ) (m : Accounts) → total (insert k v m) +ℤ balance_of m k ≡ total m +ℤ v
total-insert k v [] =
    rw (insert-nil k v) (rw (ap balance_at (lookup-nil {V = ℤ} k)) (omega int_laws))
total-insert k v ((j, w) ∷ m) =
    rw (insert-cons k j v w m, ap balance_at (lookup-cons k j w m))
      (elim (Bool-cases (text_beq j k)) [
        | inl same ↦ rw same (omega int_laws)
        | inr other ↦ rw other (regroup w _ _ _ _ (total-insert k v m))
      ])

at_balance :
    (k : Text) (v : ℤ) (m : Accounts) (old : ℤ)
    → balance_of m k ≡ old
    → total (insert k v m) +ℤ old ≡ total m +ℤ v
at_balance k v m old h = ap (λ x. total (insert k v m) +ℤ x) (sym h) ∙ total-insert k v m

deposit-total :
    (name : Text) (amount : ℤ) (accts : Accounts)
    → total (deposit name amount accts) ≡ total accts +ℤ amount
unfolding deposit
deposit-total name amount accts = elim (Option-cases (lookup name accts)) [
  | inl absent ↦
      rw (absent, deposit)
        (cancel _ (pos 0) (total accts) amount (
          at_balance name amount accts (pos 0) (ap balance_at absent)
          ∙ ap (λ x. total accts +ℤ x) (omega int_laws)))
  | inr (v, present) ↦
      rw (present, deposit)
        (cancel _ v (total accts) amount
          (at_balance name (v +ℤ amount) accts v (ap balance_at present)))
]

transfer-total :
    (src dest : Text) (amount : ℤ) (accts : Accounts)
    → total (transfer src dest amount accts) ≡ total accts
unfolding transfer
transfer-total src dest amount accts = elim (Option-cases (lookup src accts)) [
  | inl absent ↦ rw (absent, transfer)
  | inr (v, present) ↦ elim (Bool-cases (ltb_ℤ v amount)) [
    | inl short ↦ rw (present, short, transfer)
    | inr covered ↦
        rw (present, covered, transfer)
          (deposit-total dest amount (insert src (v -ℤ amount) accts)
            ∙ restored _ v amount (total accts)
                (at_balance src (v -ℤ amount) accts v (ap balance_at present)))
  ]
]
  where
    swap : (a x y : ℤ) → a +ℤ y ≡ (a +ℤ x) +ℤ (y -ℤ x)
    swap a x y = omega int_laws

    undo : (t x y : ℤ) → (t +ℤ (x -ℤ y)) +ℤ (y -ℤ x) ≡ t
    undo t x y = omega int_laws

    restored : (a x y t : ℤ) → a +ℤ x ≡ t +ℤ (x -ℤ y) → a +ℤ y ≡ t
    restored a x y t h = swap a x y ∙ ap (λ z. z +ℤ (y -ℤ x)) h ∙ undo t x y

abbrev pub paid_in : List Transaction → ℤ
paid_in [] = pos 0
paid_in (deposit_tx name amount ∷ txs) = amount +ℤ paid_in txs
paid_in (transfer_tx src dest amount ∷ txs) = paid_in txs

-- After any sequence of delivered messages the ledger holds what it held, and what was deposited.
pub listen_from-total :
    (txs : List Transaction) (accts : Accounts)
    → total (listen_from txs accts) ≡ total accts +ℤ paid_in txs
unfolding listen_from apply_tx
listen_from-total [] accts = omega int_laws
listen_from-total (deposit_tx name amount ∷ txs) accts =
    rw (listen_from-total txs (deposit name amount accts), deposit-total name amount accts)
      (omega int_laws)
listen_from-total (transfer_tx src dest amount ∷ txs) accts =
    rw
      (listen_from-total txs (transfer src dest amount accts), transfer-total src dest amount accts)
