-- ===== src/Transactions/Participant/Tests.antt =====
-- The theorems on the runs of a branch.
use dist_sys_demos.Base.{◌≡◌, true, false, some}
use dist_sys_demos.Base.Text.{codes, text_eq}
use dist_sys_demos.Transactions.App.{Application, reply_ok}
use dist_sys_demos.Transactions.Start.{no_application}
use dist_sys_demos.Transactions.Participant.{forward_cmd, commit}
use dist_sys_demos.Transactions.App.Ready.{Runs}
use dist_sys_demos.Transactions.Participant.Examples.{t, put, after, put-after}
use dist_sys_demos.Transactions.Participant.Commands.{Reach-forward_cmd}
use dist_sys_demos.Transactions.Participant.Runs.{Reach, starts, runs, Reach-commit}

after-Reach : Reach (codes "A") after
after-Reach = runs no_application (put t) reply_ok starts put-after

Reach-commit_example :
    (app1 : Application) × (commit true (codes "t") after ≡ some (app1, false))
    × Reach (codes "A") app1
Reach-commit_example = Reach-commit true (codes "t") after-Reach

Reach-forward_cmd_example : Runs (forward_cmd (codes "A") (put t) after)
Reach-forward_cmd_example = Reach-forward_cmd (put t) after-Reach
