-- ===== src/Multicast/Ledger.antt =====
-- multicast-demo/types/application.go: the ledger. Go's ints are integers here. The transcript that
-- the program also writes to its files has no state that comes back.
pub mod Conservation
use dist_sys_demos.Base.{
  Bool, true, false, Option, none, some, List, [], ◌∷◌, ◌++◌, if◌then◌else◌, zero, suc, ℕ, ◌+◌,
}
use dist_sys_demos.Base.Dict.{Dict, lookup, insert}
use dist_sys_demos.Base.Text.{Text, text_eq, codes, itoa}
use dist_sys_demos.Base.Int.{ℤ, pos, ◌+ℤ◌, ◌-ℤ◌, ltb_ℤ}

-- `Accts`, by name; an `Account` is its balance.
abbrev pub Accounts : Type 0
Accounts = Dict Text ℤ

-- `Deposit`
pub deposit : Text → ℤ → Accounts → Accounts
deposit name amount accts = elim (lookup name accts) [
  | none ↦ insert name amount accts
  | some balance ↦ insert name (balance +ℤ amount) accts
]

-- `Transfer`: refused, with no change, if the source is missing or does not hold the amount. The
-- destination is read after the source has been written.
pub transfer : Text → Text → ℤ → Accounts → Accounts
unfolding deposit
transfer src dest amount accts = elim (lookup src accts) [
  | none ↦ accts
  | some balance ↦
      if ltb_ℤ balance amount
      then accts
      else deposit dest amount (insert src (balance -ℤ amount) accts)
]

-- What a delivered message asks of the ledger: `ListenFrom` dispatches on `IsDeposit`.
pub data Transaction : Type 0 where
  deposit_tx : Text → ℤ → Transaction
  transfer_tx : Text → Text → ℤ → Transaction

-- The line that `ListenFrom` prints of a message.
unfoldable pub announce : Transaction → Text
announce (deposit_tx name amount) = codes "DEPOSIT " ++ (name ++ (codes " " ++ itoa amount))
announce (transfer_tx src dest amount) =
    codes "TRANSFER " ++ (src ++ (codes " -> " ++ (dest ++ (codes " " ++ itoa amount))))

pub apply_tx : Transaction → Accounts → Accounts
apply_tx (deposit_tx name amount) accts = deposit name amount accts
apply_tx (transfer_tx src dest amount) accts = transfer src dest amount accts

-- `ListenFrom`, over the messages that it has received.
pub listen_from : List Transaction → Accounts → Accounts
listen_from [] accts = accts
listen_from (tx ∷ txs) accts = listen_from txs (apply_tx tx accts)

-- The names `a` to `z` that `print` knows, from byte `c` on.
abbrev letters : ℕ → ℕ → List Text
letters zero c = []
letters (suc n) c = (c ∷ []) ∷ letters n (suc c)

abbrev entry : Text → ℤ → Text
entry name balance = name ++ (codes ":" ++ (itoa balance ++ codes " "))

abbrev pub balance_at : Option ℤ → ℤ
balance_at none = pos 0
balance_at (some v) = v

pub print_accounts : List Text → Accounts → Text
print_accounts [] accts = codes "\n"
print_accounts (name ∷ names) accts =
    let balance = balance_at (lookup name accts) in
    let rest = print_accounts names accts in
    if ltb_ℤ (pos 0) balance then entry name balance ++ rest else rest

-- `print`: the accounts of one letter that hold something.
pub print : Accounts → Text
unfolding print_accounts
print accts = codes "BALANCES " ++ print_accounts (letters 26 97) accts
