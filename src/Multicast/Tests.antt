-- ===== src/Multicast/Tests.antt =====
-- Runs of multicast-demo/types on three accounts and on lines of the console, and the theorems at them.
use dist_sys_demos.Multicast.Node.{parse_tx}
use dist_sys_demos.Multicast.Node.Lines.{parse_tx-announce}
use dist_sys_demos.Base.{◌++◌, ◌≡◌, arith, List, [], ◌∷◌}
use dist_sys_demos.Base.Text.{codes, text_eq}
use dist_sys_demos.Base.Int.{pos, ◌+ℤ◌}
use dist_sys_demos.Multicast.Ledger.{
  Accounts, Transaction, deposit_tx, transfer_tx, listen_from, announce,
}
use dist_sys_demos.Multicast.Ledger.Conservation.{total, listen_from-total}
use dist_sys_demos.Base.{false, some}

abbrev ledger : Accounts
ledger = (codes "a", pos 5) ∷ (codes "b", pos 0) ∷ []

-- The last transfer is refused.
abbrev batch : List Transaction
batch =
    deposit_tx (codes "c") (pos 10)
    ∷ transfer_tx (codes "a") (codes "b") (pos 3)
    ∷ transfer_tx (codes "a") (codes "c") (pos 3)
    ∷ []

listen_from-total_example : total (listen_from batch ledger) ≡ total ledger +ℤ (pos 10 +ℤ pos 0)
listen_from-total_example = listen_from-total batch ledger

parse_tx-announce_example :
    parse_tx (announce (transfer_tx (codes "a") (codes "b") (pos 3)) ++ 10 ∷ [])
    ≡ some (record { is_deposit = false; names = codes "a" ∷ codes "b" ∷ []; amount = pos 3 })
parse_tx-announce_example =
    parse_tx-announce (transfer_tx (codes "a") (codes "b") (pos 3)) (ground arith)
