-- ===== src/Transactions/Participant/Examples.antt =====
-- A branch at which one transaction has put 5 into `foo`.
use dist_sys_demos.Base.{some, ◌≡◌, refl, true, false, [], ◌∷◌}
use dist_sys_demos.Base.Dict.{lookup, insert}
use dist_sys_demos.Base.Text.{Text, codes, text_eq, text_beq}
use dist_sys_demos.Base.Int.{pos}
use dist_sys_demos.Transactions.App.{
  Application, Lock, done, init_lock, note_lock, acquire_grant, acquire_write, acquire_rw_lock,
  set_cache, store_deposit, deposit, reply_ok,
}
use dist_sys_demos.Base.Dict.{erase}
use dist_sys_demos.Base.Int.{◌+ℤ◌}
use dist_sys_demos.Transactions.App.{release_one, release_all, release_locks}
use dist_sys_demos.Transactions.Participant.{commit, add_changes}
use dist_sys_demos.Transactions.Start.{no_application}
use dist_sys_demos.Transactions.Participant.{Command, init_tx, forward_cmd}
use dist_sys_demos.Transactions.Participant.Isolation.Steps.{Work, Run, runs, works, begins, steps}

abbrev pub t : Text
t = codes "t"

abbrev pub u : Text
u = codes "u"

abbrev pub foo : Text
foo = codes "foo"

abbrev pub put : Text → Command
put tid = record {
  tid = tid;
  branch = codes "A";
  account = foo;
  method = codes "DEPOSIT";
  amount = pos 5;
}

abbrev pub held : Lock
held = record { rw_mu = record { readers = 0; writer = true }; tids = (t, false) ∷ [] }

abbrev pub free : Lock
free = record { rw_mu = record { readers = 0; writer = false }; tids = [] }

abbrev pub after : Application
after = record {
  locks = (foo, held) ∷ [];
  tx_lock_info = (t, (foo, false) ∷ []) ∷ [];
  committed_data = [];
  cache = (t, (foo, pos 5) ∷ []) ∷ [];
}

pub put-after : forward_cmd (codes "A") (put t) no_application ≡ done reply_ok after
unfolding forward_cmd init_tx deposit acquire_rw_lock acquire_write acquire_grant note_lock
    init_lock store_deposit set_cache lookup insert text_beq
put-after = refl

abbrev pub put_t : Work (codes "A") t no_application after
put_t = runs no_application after (put t) reply_ok put-after

pub after-Run : Run (codes "A") after
after-Run = steps t no_application after begins (works t no_application after put_t)

abbrev pub paid : Application
paid = record {
  locks = (foo, free) ∷ [];
  tx_lock_info = [];
  committed_data = (foo, pos 5) ∷ [];
  cache = [];
}

-- `t` is committed.
pub commit-paid : commit true t after ≡ some (paid, false)
unfolding commit add_changes release_locks release_all release_one lookup insert erase text_beq ◌+ℤ◌
commit-paid = refl
