-- ===== src/Transactions/Participant/Isolation/UpgradeTests.antt =====
-- Two transactions have read `foo`, and both want to write there.
use dist_sys_demos.Base.{List, map, length, ◌≡◌, refl, Bool, true, false, some, [], ◌∷◌}
use dist_sys_demos.Base.Dict.{lookup, insert, erase}
use dist_sys_demos.Base.Text.{Text, codes, text_eq, text_beq}
use dist_sys_demos.Base.Int.{negsuc, pos, ◌+ℤ◌}
use dist_sys_demos.Transactions.App.{
  Application, done, waits, reply_ok, init_lock, note_lock, acquire_grant, acquire_write, drop_read,
  acquire_rw_lock, set_cache, store_deposit, deposit, release_one, release_all, release_locks,
}
use dist_sys_demos.Transactions.Participant.{Command, init_tx, forward_cmd, commit, add_changes}
use dist_sys_demos.Transactions.Participant.Examples.{t, u, foo, put, free}

abbrev look : Text → Command
look tid = record (put tid) { method = codes "BALANCE"; amount = negsuc 0 }

abbrev shared_by : List (Text × Bool) → Application
shared_by tids = record {
  locks =
      (foo, record { rw_mu = record { readers = length tids; writer = false }; tids = tids }) ∷ [];
  tx_lock_info = map (λ x. (x.0, (foo, true) ∷ [])) tids;
  committed_data = [];
  cache = map (λ x. (x.0, [])) tids;
}

abbrev one : Application
one = shared_by ((t, true) ∷ [])

abbrev both : Application
both = shared_by ((t, true) ∷ (u, true) ∷ [])

-- While `t` waits to write `foo`, which it has read, `u` writes there and is committed.
abbrev overtaken : Application
overtaken = record {
  locks = (foo, free) ∷ [];
  tx_lock_info = (t, []) ∷ [];
  committed_data = (foo, pos 5) ∷ [];
  cache = (t, []) ∷ [];
}

abbrev waiting : Application
waiting = record both {
  locks =
      (foo, record { rw_mu = record { readers = 1; writer = false }; tids = (u, true) ∷ [] }) ∷ [];
  tx_lock_info = (t, []) ∷ (u, (foo, true) ∷ []) ∷ [];
}

abbrev written : Application
written = record waiting {
  locks =
      (foo, record { rw_mu = record { readers = 0; writer = true }; tids = (u, false) ∷ [] }) ∷ [];
  tx_lock_info = (t, []) ∷ (u, (foo, false) ∷ []) ∷ [];
  cache = (t, []) ∷ (u, (foo, pos 5) ∷ []) ∷ [];
}

t-overtaken :
    (forward_cmd (codes "A") (put t) both ≡ waits waiting)
    × (forward_cmd (codes "A") (put u) waiting ≡ done reply_ok written)
    × (commit true u written ≡ some (overtaken, false))
unfolding forward_cmd init_tx deposit acquire_rw_lock acquire_write drop_read acquire_grant
    note_lock init_lock store_deposit set_cache commit add_changes release_locks release_all
    release_one lookup insert erase text_beq ◌+ℤ◌
t-overtaken = (refl, refl, refl)
