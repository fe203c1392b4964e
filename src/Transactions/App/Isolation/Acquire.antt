-- ===== src/Transactions/App/Isolation/Acquire.antt =====
-- transactions-demo/server/account.go: `AcquireRWLock` keeps locks and notes in agreement; when it
-- returns, the account is noted.
use dist_sys_demos.Base.{
  ◌≡◌, ◌≢◌, refl, sym, ap, ◌∙◌, Bool, true, false, Option, none, some, arith, if◌then◌else◌,
  Option-cases, inl, inr,
}
use dist_sys_demos.Base.Dict.{
  Dict, Unique-insert, Unique-erase, lookup, insert, erase, lookup-insert, lookup-erase,
  lookup-insert_self, lookup-nil,
}
use dist_sys_demos.Base.Text.{Text, text_eq, text_beq, text_beq_iff}
use dist_sys_demos.Transactions.App.Holders.{holders-held}
use dist_sys_demos.Transactions.App.Locks.{IsHeld, grant-IsHeld, release-IsHeld}
use dist_sys_demos.Transactions.App.Locks.Steps.{init_lock-IsLocked, lock_of-IsHeld}
use dist_sys_demos.Transactions.App.{
  Accounts, or_empty, RwMutex, Lock, Application, r_lock, w_lock, new_lock, lock_of, lock_info_of,
  init_lock, note_lock, acquire_grant, drop_read, acquire_read, acquire_write, acquire_rw_lock,
}
use dist_sys_demos.Transactions.App.Isolation.{IsSound, KeepsOthers, Does, Does-after, Does-bind}
use dist_sys_demos.Transactions.App.Isolation.Relist.{relist-KeepsOthers, relist-IsSound}

-- The transaction has noted the account: for a write, as written.
abbrev pub Granted : Text → Text → Bool → Application → Type 0
Granted tid acct true app = lookup acct (lock_info_of app tid) ≢ none
Granted tid acct false app = lookup acct (lock_info_of app tid) ≡ some false

-- No read lock is granted where the transaction is listed as the writer.
write-no_read :
    (tid : Text) (r : Bool) (l : Lock) (mu : RwMutex)
    → IsHeld l
    → (if r then r_lock l.rw_mu else w_lock l.rw_mu) ≡ some mu
    → lookup tid l.tids ≡ some false
    → r ≡ false
write-no_read tid false l mu v free e = refl
write-no_read tid true l mu v free e =
    absurd (ground (arith, holders-held false tid l.tids e, v.writers))

Granted-self :
    (tid acct : Text) (r : Bool) (app : Application)
    → lookup acct (lock_info_of app tid) ≡ some r
    → Granted tid acct r app
Granted-self tid acct true app e = λ gone. ground (arith, e, gone)
Granted-self tid acct false app e = e

pub acquire_grant-Does :
    (tid acct : Text) (r : Bool) (app : Application)
    → IsSound app
    → Does tid (Granted tid acct r) app (acquire_grant tid acct r app)
unfolding acquire_grant note_lock
acquire_grant-Does tid acct r app v =
    let l = lock_of app acct in
    elim (Option-cases (if r then r_lock l.rw_mu else w_lock l.rw_mu)) [
      | inl busy ↦ rw (busy, Does) (v, (refl, λ t other. (refl, refl)))
      | inr (mu, free) ↦ elim (Option-cases (lookup tid app.tx_lock_info)) [
        | inl none_yet ↦ rw (free, none_yet, Does) tt
        | inr (info, i) ↦
            let l1 : Lock = record { rw_mu = mu; tids = insert tid r l.tids } in
            let info1 = insert acct r info in
            let others = λ (tid1 : Text) (other : text_beq tid tid1 ≡ false).
              lookup-insert tid tid1 r l.tids ∙ rw other in
            let elsewhere = λ (acct1 : Text) (other : text_beq acct acct1 ≡ false).
              lookup-insert acct acct1 r info ∙ rw other in
            let here = lookup-insert_self acct r info ∙ sym (lookup-insert_self tid r l.tids) in
            let known : lock_info_of app tid ≡ info = rw i refl in
            let held = lock_of-IsHeld acct app v.locked in
            let writes = λ (h : lookup acct info ≡ some false).
              lookup-insert_self acct r info
              ∙ ap some (
                  write-no_read tid r l mu held free
                    (sym (v.agrees tid acct) ∙ ap (lookup acct) known ∙ h)) in
            rw (free, i, Does)
              (
                relist-IsSound tid acct l1 info info1 app i others elsewhere here writes v
                    (grant-IsHeld tid r l mu held free)
                    (Unique-insert acct r info (v.locked.unique tid info i)),
                relist-KeepsOthers tid acct l1 info info1 app i others elsewhere here writes,
                Granted-self tid acct r _ (
                    ap (λ (x : Option (Dict Text Bool)). lookup acct (or_empty x))
                      (lookup-insert_self tid info1 app.tx_lock_info)
                    ∙ lookup-insert_self acct r info),
              )
      ]
    ]

drop_read-Does :
    (tid acct : Text) (app : Application)
    → IsSound app
    → lookup tid (lock_of app acct).tids ≡ some true
    → Does tid (λ _. Unit {0}) app (drop_read tid acct app)
unfolding drop_read
drop_read-Does tid acct app v reads =
    let l = lock_of app acct in
    let (mu, free, held) = release-IsHeld tid true l (lock_of-IsHeld acct app v.locked) reads in
    let l1 : Lock = record { rw_mu = mu; tids = erase tid l.tids } in
    let noted = v.agrees tid acct ∙ reads in
    elim (Option-cases (lookup tid app.tx_lock_info)) [
      | inl unknown ↦ absurd (ground (arith, unknown, noted, lookup-nil {V = Bool} acct))
      | inr (info, i) ↦
          let info1 = erase acct info in
          let known : lock_info_of app tid ≡ info = rw i refl in
          let here : lookup acct info1 ≡ lookup tid l1.tids = ground (
            arith,
            lookup-erase acct acct info,
            lookup-erase tid tid l.tids,
            text_beq_iff acct acct,
            text_beq_iff tid tid,
          ) in
          let writes : lookup acct info ≡ some false → lookup acct info1 ≡ some false =
            λ h. absurd (ground (arith, sym noted ∙ ap (lookup acct) known ∙ h)) in
          let others = λ (tid1 : Text) (other : text_beq tid tid1 ≡ false).
            lookup-erase tid tid1 l.tids ∙ rw other in
          let elsewhere = λ (acct1 : Text) (other : text_beq acct acct1 ≡ false).
            lookup-erase acct acct1 info ∙ rw other in
          rw (free, i, Does)
            (
              relist-IsSound tid acct l1 info info1 app i others elsewhere here writes v held
                  (Unique-erase acct info (v.locked.unique tid info i)),
              relist-KeepsOthers tid acct l1 info info1 app i others elsewhere here writes,
              tt,
            )
    ]

acquire_read-Does :
    (tid acct : Text) (app : Application)
    → IsSound app
    → Does tid (Granted tid acct true) app (acquire_read tid acct app)
unfolding acquire_read
acquire_read-Does tid acct app v = elim (Option-cases (lookup tid (lock_of app acct).tids)) [
  | inl fresh ↦ rw (fresh, Does) (acquire_grant-Does tid acct true app v)
  | inr (true, reads) ↦ rw (reads, Does) (acquire_grant-Does tid acct true app v)
  | inr (false, writes) ↦
      rw (writes, Does)
        (
          v,
          (refl, λ t other. (refl, refl)),
          λ gone. ground (arith, v.agrees tid acct ∙ writes, gone),
        )
]

acquire_write-Does :
    (tid acct : Text) (app : Application)
    → IsSound app
    → Does tid (Granted tid acct false) app (acquire_write tid acct app)
unfolding acquire_write
acquire_write-Does tid acct app v = elim (Option-cases (lookup tid (lock_of app acct).tids)) [
  | inl fresh ↦ rw (fresh, Does) (acquire_grant-Does tid acct false app v)
  | inr (false, writes) ↦
      rw (writes, Does) (v, (refl, λ t other. (refl, refl)), v.agrees tid acct ∙ writes)
  | inr (true, reads) ↦
      rw (reads, Does)
        (Does-bind tid (λ _. Unit {0}) (Granted tid acct false) app (drop_read tid acct app)
          (λ _. acquire_grant tid acct false) (drop_read-Does tid acct app v reads)
          (λ _ app1 w _. acquire_grant-Does tid acct false app1 w))
]

init_lock-lock_of :
    (acct : Text) (app : Application) (acct1 : Text)
    → (lock_of (init_lock acct app) acct1).tids ≡ (lock_of app acct1).tids
unfolding init_lock
init_lock-lock_of acct app acct1 =
    ground (arith, lookup-insert acct acct1 new_lock app.locks, text_beq_iff acct acct1)

init_lock-same :
    (acct : Text) (app : Application)
    → let app1 = init_lock acct app in
      (app1.tx_lock_info ≡ app.tx_lock_info)
      × (app1.cache ≡ app.cache)
      × (app1.committed_data ≡ app.committed_data)
unfolding init_lock
init_lock-same acct app = ground arith

init_lock-IsSound : (acct : Text) (app : Application) → IsSound app → IsSound (init_lock acct app)
init_lock-IsSound acct app v =
    let app1 = init_lock acct app in
    let (infos, caches, money) = init_lock-same acct app in
    record {
      locked = init_lock-IsLocked acct app v.locked;
      agrees = λ tid1 acct1.
          ap (λ (m : Dict Text (Dict Text Bool)). lookup acct1 (or_empty (lookup tid1 m))) infos
          ∙ v.agrees tid1 acct1
          ∙ ap (lookup tid1) (sym (init_lock-lock_of acct app acct1));
      cached = rw (infos, caches) v.cached;
      unique = rw caches v.unique;
    }

init_lock-KeepsOthers :
    (tid acct : Text) (app : Application) → KeepsOthers tid app (init_lock acct app)
init_lock-KeepsOthers tid acct app =
    let (infos, caches, money) = init_lock-same acct app in
    (
      money,
      λ t other. (
        ap (λ (m : Dict Text Accounts). or_empty (lookup t m)) caches,
        ap (λ (m : Dict Text (Dict Text Bool)). or_empty (lookup t m)) infos,
      ),
    )

pub acquire_rw_lock-Does :
    (tid acct : Text) (r : Bool) (app : Application)
    → IsSound app
    → Does tid (Granted tid acct r) app (acquire_rw_lock tid acct r app)
unfolding acquire_rw_lock
acquire_rw_lock-Does tid acct true app v =
    Does-after tid (Granted tid acct true) app (init_lock acct app) _
      (init_lock-KeepsOthers tid acct app)
      (acquire_read-Does tid acct (init_lock acct app) (init_lock-IsSound acct app v))
acquire_rw_lock-Does tid acct false app v =
    Does-after tid (Granted tid acct false) app (init_lock acct app) _
      (init_lock-KeepsOthers tid acct app)
      (acquire_write-Does tid acct (init_lock acct app) (init_lock-IsSound acct app v))
