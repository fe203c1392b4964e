-- ===== src/Transactions/Participant/Commands.antt =====
-- transactions-demo/server/rpc.go: no command ends the process of a branch.
use dist_sys_demos.Base.{
  ◌≡◌, true, some, List, [], arith, if◌then◌else◌, Bool-cases, Option-cases, inl, inr,
}
use dist_sys_demos.Base.Int.{ℤ}
use dist_sys_demos.Base.Dict.{lookup-insert_self, Dict, lookup, insert}
use dist_sys_demos.Base.Text.{Text, codes, text_eq, text_beq}
use dist_sys_demos.Transactions.App.{
  Application, Accounts, Outcome, done, waits, panics, ◌>>=◌, lock_of, deposit, withdraw, balance,
  is_some,
}
use dist_sys_demos.Transactions.App.Ready.{IsReady, Runs}
use dist_sys_demos.Transactions.App.Views.{
  Changes, Deposited, Withdrawn, Balanced, deposit-view, withdraw-view, balance-view,
}
use dist_sys_demos.Transactions.App.Holders.{holders-held}
use dist_sys_demos.Transactions.App.Locks.{IsLocked}
use dist_sys_demos.Transactions.App.Locks.Steps.{lock_of-IsHeld}
use dist_sys_demos.Transactions.Participant.{Command, init_tx, forward_cmd, balance_reply}
use dist_sys_demos.Transactions.Participant.Runs.{Reach, Reach-IsLocked}

-- The maps of a transaction that `ForwardCmd` makes.
made :
    {V : Type 0} (tid : Text) (m : Dict Text (List V))
    → (c : List V) × (lookup tid (if is_some (lookup tid m) then m else insert tid [] m) ≡ some c)
made tid m = elim (Option-cases (lookup tid m)) [
  | inr (c, known) ↦ (c, rw known known)
  | inl new ↦ ([], rw new (lookup-insert_self tid [] m))
]

init_tx-IsReady :
    (tid acct : Text) (app : Application) → IsLocked app → IsReady tid acct (init_tx tid app)
unfolding init_tx
init_tx-IsReady tid acct app v =
    let (cached, ec) = made tid app.cache in
    let (noted, ei) = made tid app.tx_lock_info in
    record {
      cached = cached;
      has_cache = ec;
      noted = noted;
      has_info = ei;
      counted = λ reads (empty : (lock_of app acct).rw_mu.readers ≡ 0). omega (
        arith,
        holders-held true tid (lock_of app acct).tids reads,
        (lock_of-IsHeld acct app v).readers,
      );
    }

Changes-Runs :
    (committed : Accounts) (cache : Dict Text Accounts) (tid acct : Text) (P : Text → ℤ → Type 0)
    (o : Outcome Text)
    → Changes committed cache tid acct P o
    → Runs o
Changes-Runs committed cache tid acct P (done r app) h = tt
Changes-Runs committed cache tid acct P (waits app) h = tt
Changes-Runs committed cache tid acct P panics h = h

Runs-answer :
    (branch : Text) (o : Outcome Text)
    → Runs o
    → Runs (o >>= λ res. done (balance_reply branch res))
Runs-answer branch (done res app) h = tt
Runs-answer branch (waits app) h = tt
Runs-answer branch panics h = h

-- In every state that a branch reaches, every command of every transaction that is sent there
-- returns or comes to wait at a lock: up to there it does not end the process.
pub Reach-forward_cmd :
    {branch : Text} {app : Application} (cmd : Command)
    → Reach branch app
    → Runs (forward_cmd branch cmd app)
unfolding forward_cmd
Reach-forward_cmd {branch} {app} cmd r =
    let app1 = init_tx cmd.tid app in
    let ready = init_tx-IsReady cmd.tid cmd.account app (Reach-IsLocked r) in
    elim (Bool-cases (text_beq cmd.method (codes "DEPOSIT"))) [
      | inl is_deposit ↦
          rw (is_deposit, forward_cmd)
            (Changes-Runs app1.committed_data app1.cache cmd.tid cmd.account
              (Deposited cmd.tid cmd.account cmd.amount app1.committed_data app1.cache)
              (deposit cmd.tid cmd.account cmd.amount app1)
              (deposit-view cmd.tid cmd.account cmd.amount app1 ready))
      | inr no_deposit ↦ elim (Bool-cases (text_beq cmd.method (codes "WITHDRAW"))) [
        | inl is_withdraw ↦
            rw (no_deposit, is_withdraw, forward_cmd)
              (Changes-Runs app1.committed_data app1.cache cmd.tid cmd.account
                (Withdrawn cmd.tid cmd.account cmd.amount app1.committed_data app1.cache)
                (withdraw cmd.tid cmd.account cmd.amount app1)
                (withdraw-view cmd.tid cmd.account cmd.amount app1 ready))
        | inr no_withdraw ↦ elim (Bool-cases (text_beq cmd.method (codes "BALANCE"))) [
          | inl is_balance ↦
              rw (no_deposit, no_withdraw, is_balance, forward_cmd)
                (Runs-answer branch (balance cmd.tid cmd.account app1) (
                  Changes-Runs app1.committed_data app1.cache cmd.tid cmd.account
                    (Balanced cmd.tid cmd.account app1.committed_data app1.cache)
                    (balance cmd.tid cmd.account app1)
                    (balance-view cmd.tid cmd.account app1 ready)))
          | inr unknown ↦ rw (no_deposit, no_withdraw, unknown, forward_cmd) tt
        ]
      ]
    ]
