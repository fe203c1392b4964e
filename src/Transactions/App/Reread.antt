-- ===== src/Transactions/App/Reread.antt =====
-- transactions-demo/server/account.go: a transaction that reads an account twice.
use dist_sys_demos.Base.{◌≡◌, refl, true, false, Bool, none, some, arith}
use dist_sys_demos.Base.Dict.{lookup-insert_self, Dict, lookup, insert, erase, lookup-erase}
use dist_sys_demos.Base.Text.{Text, text_eq, text_beq_iff}
use dist_sys_demos.Transactions.App.{
  Application, Lock, done, w_lock, init_lock, note_lock, acquire_grant, acquire_read,
  acquire_rw_lock, release_one,
}

-- A transaction that holds the only read lock of an account and reads the account again takes a
-- second read lock. When it gives its lock back it is no longer listed, but one read lock stays
-- behind, so that a writer of the account has to wait.
pub acquire_rw_lock-release_one :
    (tid acct : Text) (app : Application) (l : Lock) (info : Dict Text Bool)
    → lookup acct app.locks ≡ some l
    → lookup tid l.tids ≡ some true
    → l.rw_mu.writer ≡ false
    → l.rw_mu.readers ≡ 1
    → lookup tid app.tx_lock_info ≡ some info
    → (app1 : Application) × (locks2 : Dict Text Lock) × (l2 : Lock) × (acquire_rw_lock tid acct
          true app
        ≡ done tt app1)
      × (release_one tid acct true app1.locks ≡ some locks2)
      × (lookup acct locks2 ≡ some l2)
      × (lookup tid l2.tids ≡ none)
      × (l2.rw_mu.readers ≡ 1)
      × (w_lock l2.rw_mu ≡ none)
unfolding acquire_rw_lock acquire_read acquire_grant note_lock init_lock release_one
acquire_rw_lock-release_one tid acct app l info e et ew er ei =
    let l1 : Lock = record {
      rw_mu = record { readers = 2; writer = false };
      tids = insert tid true l.tids;
    } in
    let l2 : Lock = record {
      rw_mu = record { readers = 1; writer = false };
      tids = erase tid l1.tids;
    } in
    let locks1 = insert acct l1 app.locks in
    (
      record app {
        locks = locks1;
        tx_lock_info = insert tid (insert acct true info) app.tx_lock_info;
      },
      insert acct l2 locks1,
      l2,
      ground (arith, e, et, ew, er, ei),
      ground (arith, lookup-insert_self acct l1 app.locks),
      lookup-insert_self acct l2 locks1,
      ground (arith, lookup-erase tid tid l1.tids, text_beq_iff tid tid),
      refl,
      refl,
    )
