-- ===== src/Transactions/Participant.antt =====
-- transactions-demo/server/rpc.go: what a branch does for a coordinator: `ForwardCmd`, `Prepare`
-- and `Commit`.
pub mod Solvency
pub mod Runs
pub mod Commands
pub mod Isolation
pub mod Examples
mod Tests
use dist_sys_demos.Base.{
  Bool, true, false, ◌&&◌, not, Option, none, some, [], ◌∷◌, ◌++◌, if◌then◌else◌,
}
use dist_sys_demos.Base.Dict.{Dict, lookup, insert, erase}
use dist_sys_demos.Base.Text.{Text, codes, text_eq, text_beq}
use dist_sys_demos.Base.Int.{ℤ, pos, ◌+ℤ◌, ltb_ℤ}
use dist_sys_demos.Transactions.App.{
  Application, Accounts, Outcome, done, ◌>>=◌, or_zero, cache_of, lock_info_of, is_some,
  acquire_grant, store_deposit, store_withdraw, read_balance, balance, deposit, withdraw,
  release_locks, reply_not_found,
}

-- `shared.Command`
pub record Command : Type 0 where
  pub tid : Text
  pub branch : Text
  pub account : Text
  pub method : Text
  pub amount : ℤ

-- The maps of a transaction are made at its first command.
pub init_tx : Text → Application → Application
init_tx tid app = record app {
  cache = if is_some (lookup tid app.cache) then app.cache else insert tid [] app.cache;
  tx_lock_info =
      if is_some (lookup tid app.tx_lock_info)
      then app.tx_lock_info
      else insert tid [] app.tx_lock_info;
}

-- The reply to BALANCE has the branch's name in front, unless the account was not found.
abbrev pub balance_reply : Text → Text → Text
balance_reply branch res =
    if text_beq res reply_not_found then res else branch ++ (codes "." ++ res)

-- An unknown method leaves the reply empty.
pub forward_cmd : Text → Command → Application → Outcome Text
forward_cmd branch cmd app =
    let app1 = init_tx cmd.tid app in
    if text_beq cmd.method (codes "DEPOSIT")
    then deposit cmd.tid cmd.account cmd.amount app1
    else if text_beq cmd.method (codes "WITHDRAW")
    then withdraw cmd.tid cmd.account cmd.amount app1
    else if text_beq cmd.method (codes "BALANCE")
    then (balance cmd.tid cmd.account app1 >>= λ res. done (balance_reply branch res))
    else done [] app1

-- The rest of a command, from the call that waits for the lock.
pub resume_cmd : Text → Command → Application → Outcome Text
resume_cmd branch cmd app =
    if text_beq cmd.method (codes "DEPOSIT")
    then (acquire_grant cmd.tid cmd.account false app >>= λ _.
        store_deposit cmd.tid cmd.account cmd.amount)
    else if text_beq cmd.method (codes "WITHDRAW")
    then (acquire_grant cmd.tid cmd.account false app >>= λ _.
        store_withdraw cmd.tid cmd.account cmd.amount)
    else if text_beq cmd.method (codes "BALANCE")
    then (acquire_grant cmd.tid cmd.account true app >>= λ _ app1.
        done (balance_reply branch (read_balance cmd.tid cmd.account app1)) app1)
    else done [] app

-- The loop of `Prepare` over the accounts that the transaction has locked.
unfoldable pub can_commit : Accounts → Accounts → Dict Text Bool → Bool
can_commit committed changes [] = true
can_commit committed changes ((acct, is_read) ∷ info) =
    not (ltb_ℤ (or_zero (lookup acct committed) +ℤ or_zero (lookup acct changes)) (pos 0))
    && can_commit committed changes info

-- `Prepare`
unfoldable pub prepare : Text → Application → Bool
prepare tid app = can_commit app.committed_data (cache_of app tid) (lock_info_of app tid)

-- The loop of `Commit` over the cached changes.
unfoldable pub add_changes : Accounts → Accounts → Accounts
add_changes [] committed = committed
add_changes ((acct, change) ∷ changes) committed =
    add_changes changes (insert acct (or_zero (lookup acct committed) +ℤ change) committed)

abbrev pub apply_changes : Bool → Text → Application → Application
apply_changes do_commit tid app =
    if do_commit
    then record app { committed_data = add_changes (cache_of app tid) app.committed_data }
    else app

-- `Commit`, for a commit and for an abort; its reply's `HaveCommitted` is never set. `none` is a
-- fatal error.
unfoldable pub commit : Bool → Text → Application → Option (Application × Bool)
commit do_commit tid app =
    let app1 = apply_changes do_commit tid app in
    elim (release_locks tid (record app1 { cache = erase tid app1.cache })) [
      | none ↦ none
      | some app2 ↦ some (app2, false)
    ]
