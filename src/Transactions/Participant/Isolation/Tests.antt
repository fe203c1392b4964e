-- ===== src/Transactions/Participant/Isolation/Tests.antt =====
-- The theorems on interleaved transactions, where a second one waits at the lock of `foo`.
use dist_sys_demos.Base.{◌≢◌, ◌≡◌, refl, true, false, none, some, [], ◌∷◌, arith}
use dist_sys_demos.Base.Dict.{lookup, insert, erase}
use dist_sys_demos.Base.Text.{Text, codes, text_eq, text_beq}
use dist_sys_demos.Base.Int.{pos}
use dist_sys_demos.Transactions.App.{
  Application, cache_of, lock_info_of, lock_of, read_balance, waits, init_lock, note_lock,
  acquire_grant, acquire_write, acquire_rw_lock, set_cache, store_deposit, deposit, release_one,
  release_all, release_locks,
}
use dist_sys_demos.Transactions.Participant.{init_tx, forward_cmd, resume_cmd, commit}
use dist_sys_demos.Transactions.Participant.Isolation.Steps.{blocks, works, ends, Run-covered}
use dist_sys_demos.Transactions.Participant.Isolation.Repeatable.{
  Others, nobody, another, Others-reads,
}
use dist_sys_demos.Transactions.Participant.Isolation.Resumes.{IsAsking, forward_cmd-resume_cmd}
use dist_sys_demos.Transactions.Participant.Examples.{free, t, u, foo, put, after, after-Run}

abbrev blocked : Application
blocked = record after {
  tx_lock_info = (t, (foo, false) ∷ []) ∷ (u, []) ∷ [];
  cache = (t, (foo, pos 5) ∷ []) ∷ (u, []) ∷ [];
}

put-blocked : forward_cmd (codes "A") (put u) after ≡ waits blocked
unfolding forward_cmd init_tx deposit acquire_rw_lock acquire_write acquire_grant note_lock
    init_lock store_deposit set_cache lookup insert text_beq
put-blocked = refl

abort-blocked : commit false u blocked ≡ some (after, false)
unfolding commit release_locks release_all release_one lookup insert erase text_beq
abort-blocked = refl

-- `u` waits at the lock, and is aborted.
around : Others (codes "A") t after after
unfolding text_beq
around =
    another after blocked after u
      (another after after blocked u (nobody after) refl
        (works u after blocked (blocks after blocked (put u) put-blocked)))
      refl (ends false u blocked after false abort-blocked)

noted-foo : lookup foo (lock_info_of after t) ≢ none
unfolding lookup text_beq
noted-foo gone = ground arith

cached-foo : lookup foo (cache_of after t) ≡ some (pos 5)
unfolding lookup text_beq
cached-foo = refl

Run-covered_example :
    (lookup foo (lock_info_of after t) ≡ some false)
    × ((lock_of after foo).rw_mu.writer ≡ true)
    × ((s : Text)
        → s ≢ t
        → (lookup foo (lock_info_of after s) ≡ none) × (lookup foo (cache_of after s) ≡ none))
Run-covered_example = Run-covered t foo (pos 5) after-Run cached-foo

Others-reads_example :
    (lookup foo (lock_info_of after t) ≡ lookup foo (lock_info_of after t))
    × (cache_of after t ≡ cache_of after t)
    × (read_balance t foo after ≡ read_balance t foo after)
Others-reads_example = Others-reads foo after-Run around noted-foo

-- The first transaction has given its lock back.
abbrev released : Application
released = record blocked { locks = (foo, free) ∷ [] }

u-IsAsking : IsAsking (put u) released
unfolding lookup text_beq
u-IsAsking = record { cached = refl; noted = refl; known = refl; unlisted = refl }

forward_cmd-resume_cmd_example :
    (resume_cmd (codes "A") (put u) blocked ≡ waits blocked)
    × (resume_cmd (codes "A") (put u) released ≡ forward_cmd (codes "A") (put u) released)
forward_cmd-resume_cmd_example =
    forward_cmd-resume_cmd (codes "A") (put u) after blocked released put-blocked u-IsAsking
