-- ===== src/Transactions/Participant/Isolation/Commands.antt =====
-- transactions-demo/server/rpc.go: a command of a transaction keeps locks and notes in agreement, and
-- leaves alone what the other transactions have noted and cached.
use dist_sys_demos.Base.{
  ◌≡◌, refl, sym, ap, ◌∙◌, true, false, none, some, List, [], if◌then◌else◌, Bool-cases,
  Option-cases, inl, inr, subst,
}
use dist_sys_demos.Base.Dict.{Dict, Unique, lookup, insert}
use dist_sys_demos.Base.Text.{Text, codes, text_eq, text_beq, text_beq_iff}
use dist_sys_demos.Transactions.App.{
  Lock, new_lock, Application, Outcome, done, waits, panics, ◌>>=◌, or_empty, cache_of,
  lock_info_of, is_some, acquire_grant, store_deposit, store_withdraw, read_balance, balance,
}
use dist_sys_demos.Transactions.App.Isolation.{
  IsSound, KeepsOthers, Does, Does-after, Does-bind, or_empty-insert,
}
use dist_sys_demos.Transactions.App.Isolation.Acquire.{Granted, acquire_grant-Does}
use dist_sys_demos.Transactions.App.Isolation.Stores.{
  store_deposit-Does, store_withdraw-Does, deposit-Does, withdraw-Does, balance-Does,
}
use dist_sys_demos.Transactions.Participant.{
  Command, init_tx, forward_cmd, resume_cmd, balance_reply,
}
use dist_sys_demos.Transactions.Participant.Runs.{init_tx-IsLocked}
use dist_sys_demos.Transactions.Participant.Isolation.{Anything}

made-same :
    {A : Type 0} (tid t : Text) (m : Dict Text (List A))
    → or_empty (lookup t (if is_some (lookup tid m) then m else insert tid [] m))
      ≡ or_empty (lookup t m)
made-same tid t m = elim (Option-cases (lookup tid m)) [
  | inr (c, known) ↦ rw known refl
  | inl new ↦ elim (Bool-cases (text_beq tid t)) [
    | inr other ↦ rw new (or_empty-insert tid t [] m ∙ rw other)
    | inl eq ↦ rw new (
        or_empty-insert tid t [] m
        ∙ rw eq (sym (ap (λ u. or_empty (lookup u m)) (sym ((text_beq_iff tid t).0 eq)) ∙ rw new)))
  ]
]

init_tx-same :
    (tid t : Text) (app : Application)
    → let app1 = init_tx tid app in
      (cache_of app1 t ≡ cache_of app t) × (lock_info_of app1 t ≡ lock_info_of app t)
unfolding init_tx
init_tx-same tid t app = (made-same tid t app.cache, made-same tid t app.tx_lock_info)

init_tx-locks :
    (tid : Text) (app : Application)
    → let app1 = init_tx tid app in
      (app1.locks ≡ app.locks) × (app1.committed_data ≡ app.committed_data)
unfolding init_tx
init_tx-locks tid app = (refl, refl)

init_tx-IsSound : (tid : Text) (app : Application) → IsSound app → IsSound (init_tx tid app)
init_tx-IsSound tid app v = record {
  locked = init_tx-IsLocked tid app v.locked;
  agrees = λ t acct.
      ap (lookup acct) (init_tx-same tid t app).1
      ∙ v.agrees t acct
      ∙ ap
          (λ (m : Dict Text Lock).
            let l : Lock = elim (lookup acct m) [ none ↦ new_lock | some l ↦ l ] in lookup t l.tids)
          (sym (init_tx-locks tid app).0);
  cached = λ t acct x h.
      ap (lookup acct) (init_tx-same tid t app).1
      ∙ v.cached t acct x (ap (lookup acct) (sym (init_tx-same tid t app).0) ∙ h);
  unique = λ t. subst Unique (sym (init_tx-same tid t app).0) (v.unique t);
}

init_tx-KeepsOthers : (tid : Text) (app : Application) → KeepsOthers tid app (init_tx tid app)
init_tx-KeepsOthers tid app = ((init_tx-locks tid app).1, λ t other. init_tx-same tid t app)

Does-any :
    {A : Type 0} (tid : Text) (P : Application → Type 0) (app : Application) (o : Outcome A)
    → Does tid P app o
    → Does tid Anything app o
Does-any tid P app (done a app1) (v, k, p) = (v, k, tt)
Does-any tid P app (waits app1) h = h
Does-any tid P app panics h = tt

Does-answer :
    (branch tid : Text) (P : Application → Type 0) (app : Application) (o : Outcome Text)
    → Does tid P app o
    → Does tid Anything app (o >>= λ res. done (balance_reply branch res))
Does-answer branch tid P app (done a app1) (v, k, p) = (v, k, tt)
Does-answer branch tid P app (waits app1) h = h
Does-answer branch tid P app panics h = tt

pub forward_cmd-Does :
    (branch : Text) (cmd : Command) (app : Application)
    → IsSound app
    → Does cmd.tid Anything app (forward_cmd branch cmd app)
unfolding forward_cmd
forward_cmd-Does branch cmd app v =
    let app1 = init_tx cmd.tid app in
    let w = init_tx-IsSound cmd.tid app v in
    Does-after cmd.tid Anything app app1 _ (init_tx-KeepsOthers cmd.tid app)
      (elim (Bool-cases (text_beq cmd.method (codes "DEPOSIT"))) [
        | inl is_deposit ↦
            rw (is_deposit, forward_cmd)
              (Does-any cmd.tid (Granted cmd.tid cmd.account false) app1 _
                (deposit-Does cmd.tid cmd.account cmd.amount app1 w))
        | inr no_deposit ↦ elim (Bool-cases (text_beq cmd.method (codes "WITHDRAW"))) [
          | inl is_withdraw ↦
              rw (no_deposit, is_withdraw, forward_cmd)
                (Does-any cmd.tid (Granted cmd.tid cmd.account false) app1 _
                  (withdraw-Does cmd.tid cmd.account cmd.amount app1 w))
          | inr no_withdraw ↦ elim (Bool-cases (text_beq cmd.method (codes "BALANCE"))) [
            | inl is_balance ↦
                rw (no_deposit, no_withdraw, is_balance, forward_cmd)
                  (Does-answer branch cmd.tid (Granted cmd.tid cmd.account true) app1
                    (balance cmd.tid cmd.account app1) (balance-Does cmd.tid cmd.account app1 w))
            | inr unknown ↦
                rw (no_deposit, no_withdraw, unknown, forward_cmd)
                  (w, (refl, λ t other. (refl, refl)), tt)
          ]
        ]
      ])

pub resume_cmd-Does :
    (branch : Text) (cmd : Command) (app : Application)
    → IsSound app
    → Does cmd.tid Anything app (resume_cmd branch cmd app)
unfolding resume_cmd
resume_cmd-Does branch cmd app v = elim (Bool-cases (text_beq cmd.method (codes "DEPOSIT"))) [
  | inl is_deposit ↦
      rw (is_deposit, resume_cmd)
        (Does-bind cmd.tid (Granted cmd.tid cmd.account false) Anything app
          (acquire_grant cmd.tid cmd.account false app)
          (λ _. store_deposit cmd.tid cmd.account cmd.amount)
          (acquire_grant-Does cmd.tid cmd.account false app v)
          (λ _ app1 w noted.
            Does-any cmd.tid (Granted cmd.tid cmd.account false) app1 _
              (store_deposit-Does cmd.tid cmd.account cmd.amount app1 w noted)))
  | inr no_deposit ↦ elim (Bool-cases (text_beq cmd.method (codes "WITHDRAW"))) [
    | inl is_withdraw ↦
        rw (no_deposit, is_withdraw, resume_cmd)
          (Does-bind cmd.tid (Granted cmd.tid cmd.account false) Anything app
            (acquire_grant cmd.tid cmd.account false app)
            (λ _. store_withdraw cmd.tid cmd.account cmd.amount)
            (acquire_grant-Does cmd.tid cmd.account false app v)
            (λ _ app1 w noted.
              Does-any cmd.tid (Granted cmd.tid cmd.account false) app1 _
                (store_withdraw-Does cmd.tid cmd.account cmd.amount app1 w noted)))
    | inr no_withdraw ↦ elim (Bool-cases (text_beq cmd.method (codes "BALANCE"))) [
      | inl is_balance ↦
          rw (no_deposit, no_withdraw, is_balance, resume_cmd)
            (Does-bind cmd.tid (Granted cmd.tid cmd.account true) Anything app
              (acquire_grant cmd.tid cmd.account true app)
              (λ _ app1. done (balance_reply branch (read_balance cmd.tid cmd.account app1)) app1)
              (acquire_grant-Does cmd.tid cmd.account true app v)
              (λ _ app1 w noted. (w, (refl, λ t other. (refl, refl)), tt)))
      | inr unknown ↦
          rw (no_deposit, no_withdraw, unknown, resume_cmd) (v, (refl, λ t other. (refl, refl)), tt)
    ]
  ]
]
