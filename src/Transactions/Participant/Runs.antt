-- ===== src/Transactions/Participant/Runs.antt =====
-- transactions-demo/server/rpc.go and account.go: the states that a branch reaches, over all commands
-- of all transactions. A command that waits at a lock goes on, when the lock can be had, in the
-- state that the others have reached.
use mathlib.Core.Option.{some-injective}
use dist_sys_demos.Base.{
  ◌≢◌, ◌≡◌, sym, ap, ◌∙◌, subst, Bool, true, false, none, some, [], arith, Bool-cases, Option-cases,
  inl, inr,
}
use dist_sys_demos.Base.Int.{ℤ}
use dist_sys_demos.Base.Dict.{
  Dict, Unique, lookup, insert, erase, lookup-insert, lookup-erase, lookup-nil,
}
use dist_sys_demos.Base.Text.{Text, codes, text_eq, text_beq, text_beq_iff}
use dist_sys_demos.Transactions.App.{
  Application, Lock, done, waits, acquire_grant, store_deposit, store_withdraw, balance,
}
use dist_sys_demos.Transactions.Start.{no_application}
use dist_sys_demos.Transactions.App.Holders.{holders-held}
use dist_sys_demos.Transactions.App.Locks.{IsHeld, IsLocked}
use dist_sys_demos.Transactions.App.Locks.Steps.{Remains, acquire_grant-Remains}
use dist_sys_demos.Transactions.App.Locks.Operations.{
  Remains-bind, deposit-Remains, withdraw-Remains, balance-Remains, store_deposit-Remains,
  store_withdraw-Remains,
}
use dist_sys_demos.Transactions.App.Locks.Release.{release_locks-IsLocked}
use dist_sys_demos.Transactions.Participant.{
  Command, init_tx, forward_cmd, balance_reply, apply_changes, commit,
}

-- `wakes`, and `deposits` or `withdraws` behind it, are the rest of a command that has waited; here
-- they may also come without one.
pub data Reach (branch : Text) : Application → Type 0 where
  starts : Reach branch no_application
  runs :
      (app : Application) {app1 : Application} (cmd : Command) (reply : Text)
      → Reach branch app
      → forward_cmd branch cmd app ≡ done reply app1
      → Reach branch app1
  blocks :
      (app : Application) {app1 : Application} (cmd : Command)
      → Reach branch app
      → forward_cmd branch cmd app ≡ waits app1
      → Reach branch app1
  wakes :
      (app : Application) {app1 : Application} (tid acct : Text) (is_read : Bool)
      → Reach branch app
      → acquire_grant tid acct is_read app ≡ done tt app1
      → Reach branch app1
  deposits :
      (app : Application) {app1 : Application} (tid acct : Text) (amount : ℤ) (reply : Text)
      → Reach branch app
      → store_deposit tid acct amount app ≡ done reply app1
      → Reach branch app1
  withdraws :
      (app : Application) {app1 : Application} (tid acct : Text) (amount : ℤ) (reply : Text)
      → Reach branch app
      → store_withdraw tid acct amount app ≡ done reply app1
      → Reach branch app1
  ends :
      (app : Application) {app1 : Application} (do_commit : Bool) (tid : Text) (reply : Bool)
      → Reach branch app
      → commit do_commit tid app ≡ some (app1, reply)
      → Reach branch app1

pub init_tx-IsLocked : (tid : Text) (app : Application) → IsLocked app → IsLocked (init_tx tid app)
unfolding init_tx
init_tx-IsLocked tid app v = elim (Option-cases (lookup tid app.tx_lock_info)) [
  | inr (info, i) ↦ rw (i, init_tx) (record { locks = v.locks; unique = v.unique; noted = v.noted })
  | inl new ↦
      rw (new, init_tx)
        (record {
          locks = v.locks;
          unique = λ tid1 info i. elim (Bool-cases (text_beq tid tid1)) [
            | inl eq ↦ subst Unique (empty tid1 info eq i) tt
            | inr other ↦ v.unique tid1 info (old tid1 info other i)
          ];
          noted = λ tid1 acct info r i h. elim (Bool-cases (text_beq tid tid1)) [
            | inr other ↦ v.noted tid1 acct info r (old tid1 info other i) h
            | inl eq ↦ absurd (
                ground (
                  arith,
                  ap (λ (m : Dict Text Bool). lookup acct m) (empty tid1 info eq i),
                  lookup-nil {V = Bool} acct,
                  h,
                ))
          ];
        })
]
  where
    empty :
        (tid1 : Text) (info : Dict Text Bool)
        → text_beq tid tid1 ≡ true
        → lookup tid1 (insert tid [] app.tx_lock_info) ≡ some info
        → [] ≡ info
    empty tid1 info eq i =
        some-injective [] info (sym (lookup-insert tid tid1 [] app.tx_lock_info ∙ rw eq) ∙ i)

    old :
        (tid1 : Text) (info : Dict Text Bool)
        → text_beq tid tid1 ≡ false
        → lookup tid1 (insert tid [] app.tx_lock_info) ≡ some info
        → lookup tid1 app.tx_lock_info ≡ some info
    old tid1 info other i = sym (lookup-insert tid tid1 [] app.tx_lock_info ∙ rw other) ∙ i

forward_cmd-Remains :
    (branch : Text) (cmd : Command) (app : Application)
    → IsLocked app
    → Remains (forward_cmd branch cmd app)
unfolding forward_cmd
forward_cmd-Remains branch cmd app v =
    let app1 = init_tx cmd.tid app in
    let w = init_tx-IsLocked cmd.tid app v in
    elim (Bool-cases (text_beq cmd.method (codes "DEPOSIT"))) [
      | inl is_deposit ↦
          rw (is_deposit, forward_cmd) (deposit-Remains cmd.tid cmd.account cmd.amount app1 w)
      | inr no_deposit ↦ elim (Bool-cases (text_beq cmd.method (codes "WITHDRAW"))) [
        | inl is_withdraw ↦
            rw (no_deposit, is_withdraw, forward_cmd)
              (withdraw-Remains cmd.tid cmd.account cmd.amount app1 w)
        | inr no_withdraw ↦ elim (Bool-cases (text_beq cmd.method (codes "BALANCE"))) [
          | inl is_balance ↦
              rw (no_deposit, no_withdraw, is_balance, forward_cmd)
                (Remains-bind (balance cmd.tid cmd.account app1)
                  (λ res. done (balance_reply branch res))
                  (balance-Remains cmd.tid cmd.account app1 w) (λ res app2 u. u))
          | inr unknown ↦ rw (no_deposit, no_withdraw, unknown, forward_cmd) w
        ]
      ]
    ]

pub commit-IsLocked :
    (do_commit : Bool) (tid : Text) (app : Application)
    → IsLocked app
    → (app1 : Application) × (commit do_commit tid app ≡ some (app1, false)) × IsLocked app1
unfolding commit
commit-IsLocked true tid app v =
    let app2 = apply_changes true tid app in
    let (app1, e, w) =
      release_locks-IsLocked tid (record app2 { cache = erase tid app.cache })
        (record { locks = v.locks; unique = v.unique; noted = v.noted }) in
    (app1, rw (e, commit), w)
commit-IsLocked false tid app v =
    let (app1, e, w) =
      release_locks-IsLocked tid (record app { cache = erase tid app.cache })
        (record { locks = v.locks; unique = v.unique; noted = v.noted }) in
    (app1, rw (e, commit), w)

pub Reach-IsLocked : {branch : Text} {app : Application} → Reach branch app → IsLocked app
Reach-IsLocked starts = record {
  locks = λ acct l e. absurd (ground (arith, lookup-nil {V = Lock} acct, e));
  unique = λ tid info e. absurd (ground (arith, lookup-nil {V = Dict Text Bool} tid, e));
  noted = λ tid acct info r e h. absurd (ground (arith, lookup-nil {V = Dict Text Bool} tid, e));
}
Reach-IsLocked {branch} (runs app cmd reply r e) =
    subst Remains e (forward_cmd-Remains branch cmd app (Reach-IsLocked r))
Reach-IsLocked {branch} (blocks app cmd r e) =
    subst Remains e (forward_cmd-Remains branch cmd app (Reach-IsLocked r))
Reach-IsLocked (wakes app tid acct is_read r e) =
    subst Remains e (acquire_grant-Remains tid acct is_read app (Reach-IsLocked r))
Reach-IsLocked (deposits app tid acct amount reply r e) =
    subst Remains e (store_deposit-Remains tid acct amount app (Reach-IsLocked r))
Reach-IsLocked (withdraws app tid acct amount reply r e) =
    subst Remains e (store_withdraw-Remains tid acct amount app (Reach-IsLocked r))
Reach-IsLocked (ends app do_commit tid reply r e) =
    let (app2, e2, w) = commit-IsLocked do_commit tid app (Reach-IsLocked r) in
    subst (λ (x : Application × Bool). IsLocked x.0) (some-injective _ _ (sym e2 ∙ e)) w

-- A transaction that is listed as the writer is alone with the lock.
pub IsHeld-alone :
    (tid : Text) (l : Lock)
    → IsHeld l
    → lookup tid l.tids ≡ some false
    → (l.rw_mu.writer ≡ true)
      × (l.rw_mu.readers ≡ 0)
      × ((tid1 : Text) → tid1 ≢ tid → lookup tid1 l.tids ≡ none)
IsHeld-alone tid l v writes =
    let fewer = holders-held false tid l.tids writes in
    let held : l.rw_mu.writer ≡ true = ground (arith, v.writers) in
    let none_reads = v.apart held in
    (
      held,
      none_reads,
      λ tid1 other. elim (Option-cases (lookup tid1 l.tids)) [
        | inl nothing ↦ nothing
        | inr (true, reads) ↦ absurd (omega (arith, holders-held true tid1 l.tids reads, v.readers))
        | inr (false, writes1) ↦
            let still : lookup tid1 (erase tid l.tids) ≡ some false =
              lookup-erase tid tid1 l.tids
              ∙ ground (arith, text_beq_iff tid tid1, writes1, other) in
            absurd (ground (arith, holders-held false tid1 (erase tid l.tids) still, v.writers))
      ],
    )

-- In every state that a branch reaches, `Commit` returns for every transaction, for a commit and for
-- an abort: no lock is given back that is not held.
pub Reach-commit :
    {branch : Text} {app : Application} (do_commit : Bool) (tid : Text)
    → Reach branch app
    → (app1 : Application) × (commit do_commit tid app ≡ some (app1, false)) × Reach branch app1
Reach-commit {branch} {app} do_commit tid r =
    let (app1, e, w) = commit-IsLocked do_commit tid app (Reach-IsLocked r) in
    (app1, e, ends app do_commit tid false r e)

-- In every state that a branch reaches, a transaction that is listed with the write lock of an account
-- is the only one that is listed there, and the write lock is held, and no read lock.
pub Reach-writes_alone :
    {branch : Text} {app : Application} (acct tid : Text) (l : Lock)
    → Reach branch app
    → lookup acct app.locks ≡ some l
    → lookup tid l.tids ≡ some false
    → (l.rw_mu.writer ≡ true)
      × (l.rw_mu.readers ≡ 0)
      × ((tid1 : Text) → tid1 ≢ tid → lookup tid1 l.tids ≡ none)
Reach-writes_alone acct tid l r e writes =
    IsHeld-alone tid l ((Reach-IsLocked r).locks acct l e) writes
