-- ===== src/Transactions/Participant/Isolation/Resumes.antt =====
-- transactions-demo/server/rpc.go: a command that waits goes on from where it waits.
use dist_sys_demos.Base.{
  ◌≡◌, refl, subst, Bool, true, false, none, arith, Bool-cases, Option-cases, inl, inr,
}
use dist_sys_demos.Base.Dict.{lookup}
use dist_sys_demos.Base.Text.{Text, codes, text_eq, text_beq}
use dist_sys_demos.Transactions.App.{
  Application, Outcome, done, waits, panics, ◌>>=◌, balance, deposit, withdraw, is_some,
  read_balance, lock_of, init_lock, acquire_grant, acquire_read, acquire_write, acquire_rw_lock,
}
use dist_sys_demos.Transactions.App.Isolation.Waits.{
  StillWaits, deposit-StillWaits, withdraw-StillWaits, balance-StillWaits,
}
use dist_sys_demos.Transactions.Participant.{
  Command, init_tx, forward_cmd, resume_cmd, balance_reply,
}

StillWaits-answer :
    (branch tid acct : Text) (o : Outcome Text)
    → StillWaits tid acct true o
    → StillWaits tid acct true (o >>= λ res. done (balance_reply branch res))
StillWaits-answer branch tid acct (done res app) h = tt
StillWaits-answer branch tid acct (waits app) h = h
StillWaits-answer branch tid acct panics h = tt

resume_cmd-waits :
    (branch : Text) (cmd : Command) (app app1 : Application)
    → forward_cmd branch cmd app ≡ waits app1
    → resume_cmd branch cmd app1 ≡ waits app1
unfolding forward_cmd resume_cmd
resume_cmd-waits branch cmd app app1 e =
    let app0 = init_tx cmd.tid app in
    elim (Bool-cases (text_beq cmd.method (codes "DEPOSIT"))) [
      | inl is_deposit ↦
          let run : deposit cmd.tid cmd.account cmd.amount app0 ≡ waits app1 =
            ground (arith, is_deposit, e) in
          let still =
            subst (StillWaits cmd.tid cmd.account false) run
              (deposit-StillWaits cmd.tid cmd.account cmd.amount app0) in
          rw (is_deposit, resume_cmd) (rw still refl)
      | inr no_deposit ↦ elim (Bool-cases (text_beq cmd.method (codes "WITHDRAW"))) [
        | inl is_withdraw ↦
            let run : withdraw cmd.tid cmd.account cmd.amount app0 ≡ waits app1 =
              ground (arith, no_deposit, is_withdraw, e) in
            let still =
              subst (StillWaits cmd.tid cmd.account false) run
                (withdraw-StillWaits cmd.tid cmd.account cmd.amount app0) in
            rw (no_deposit, is_withdraw, resume_cmd) (rw still refl)
        | inr no_withdraw ↦ elim (Bool-cases (text_beq cmd.method (codes "BALANCE"))) [
          | inl is_balance ↦
              let run : (balance cmd.tid cmd.account app0 >>= λ res.
              done (balance_reply branch res))
                  ≡ waits app1 =
                ground (arith, no_deposit, no_withdraw, is_balance, e) in
              let still = subst (StillWaits cmd.tid cmd.account true) run (
                StillWaits-answer branch cmd.tid cmd.account (balance cmd.tid cmd.account app0)
                  (balance-StillWaits cmd.tid cmd.account app0)) in
              rw (no_deposit, no_withdraw, is_balance, resume_cmd) (rw still refl)
          | inr unknown ↦ absurd (ground (arith, no_deposit, no_withdraw, unknown, e))
        ]
      ]
    ]

-- The transaction has begun, and the account's lock is there and does not list it.
pub record IsAsking (cmd : Command) (app : Application) : Type 0 where
  pub cached : is_some (lookup cmd.tid app.cache) ≡ true
  pub noted : is_some (lookup cmd.tid app.tx_lock_info) ≡ true
  pub known : is_some (lookup cmd.account app.locks) ≡ true
  pub unlisted : lookup cmd.tid (lock_of app cmd.account).tids ≡ none

init_tx-begun : (cmd : Command) (app : Application) → IsAsking cmd app → init_tx cmd.tid app ≡ app
unfolding init_tx
init_tx-begun cmd app h = rw (h.cached, h.noted, init_tx) refl

init_lock-there :
    (acct : Text) (app : Application)
    → is_some (lookup acct app.locks) ≡ true
    → init_lock acct app ≡ app
unfolding init_lock
init_lock-there acct app h = elim (Option-cases (lookup acct app.locks)) [
  | inl missing ↦ absurd (ground (arith, h, missing))
  | inr (l, there) ↦ rw (there, init_lock) refl
]

acquire_rw_lock-asks :
    (cmd : Command) (app : Application) (is_read : Bool)
    → IsAsking cmd app
    → acquire_rw_lock cmd.tid cmd.account is_read app
      ≡ acquire_grant cmd.tid cmd.account is_read app
unfolding acquire_rw_lock acquire_read acquire_write
acquire_rw_lock-asks cmd app true h =
    rw (init_lock-there cmd.account app h.known, acquire_rw_lock)
      (rw (h.unlisted, acquire_read) refl)
acquire_rw_lock-asks cmd app false h =
    rw (init_lock-there cmd.account app h.known, acquire_rw_lock)
      (rw (h.unlisted, acquire_write) refl)

-- BALANCE has its reply made in two steps.
bind-twice :
    (o : Outcome (Unit {0})) (f : Application → Text) (g : Text → Text)
    → (o >>= λ _ app. done (g (f app)) app)
      ≡ ((o >>= λ _ app. done (f app) app) >>= λ res. done (g res))
bind-twice (done x app) f g = refl
bind-twice (waits app) f g = refl
bind-twice panics f g = refl

resume_cmd-asks :
    (branch : Text) (cmd : Command) (app : Application)
    → IsAsking cmd app
    → resume_cmd branch cmd app ≡ forward_cmd branch cmd app
unfolding forward_cmd resume_cmd deposit withdraw balance
resume_cmd-asks branch cmd app h =
    let writes = acquire_rw_lock-asks cmd app false h in
    let reads = acquire_rw_lock-asks cmd app true h in
    rw (init_tx-begun cmd app h, forward_cmd)
      (elim (Bool-cases (text_beq cmd.method (codes "DEPOSIT"))) [
        | inl is_deposit ↦ rw (is_deposit, forward_cmd) (rw (writes, deposit) refl)
        | inr no_deposit ↦ elim (Bool-cases (text_beq cmd.method (codes "WITHDRAW"))) [
          | inl is_withdraw ↦ rw (no_deposit, is_withdraw, forward_cmd) (rw (writes, withdraw) refl)
          | inr no_withdraw ↦ elim (Bool-cases (text_beq cmd.method (codes "BALANCE"))) [
            | inl is_balance ↦
                rw (no_deposit, no_withdraw, is_balance, forward_cmd)
                  (rw (reads, balance)
                    (bind-twice (acquire_grant cmd.tid cmd.account true app)
                      (read_balance cmd.tid cmd.account) (balance_reply branch)))
            | inr unknown ↦ rw (no_deposit, no_withdraw, unknown, forward_cmd) refl
          ]
        ]
      ])

-- A command that waits is still waiting if it is resumed in the state that it has reached. In every
-- state in which the transaction has begun and the account's lock is there and does not list it, a
-- command that is resumed ends as the same command does that is sent there anew: with the same reply
-- and state, with a wait, or with a panic.
pub forward_cmd-resume_cmd :
    (branch : Text) (cmd : Command) (app app1 app2 : Application)
    → forward_cmd branch cmd app ≡ waits app1
    → IsAsking cmd app2
    → (resume_cmd branch cmd app1 ≡ waits app1)
      × (resume_cmd branch cmd app2 ≡ forward_cmd branch cmd app2)
forward_cmd-resume_cmd branch cmd app app1 app2 e h =
    (resume_cmd-waits branch cmd app app1 e, resume_cmd-asks branch cmd app2 h)
