-- ===== src/Transactions/Participant/Isolation/Steps.antt =====
-- transactions-demo/server/rpc.go: the steps that the commands and the ends of many transactions
-- take at a branch, in any order.

use dist_sys_demos.Base.{
  ◌≡◌, ◌≢◌, sym, ap, ◌∙◌, Bool, true, false, none, some, arith, Option-cases, inl, inr, subst,
}
use dist_sys_demos.Base.Dict.{Dict, lookup, lookup-nil}
use dist_sys_demos.Base.Text.{Text, text_eq, text_beq, text_beq_iff}
use dist_sys_demos.Base.Int.{ℤ}
use dist_sys_demos.Transactions.App.{
  Lock, Application, done, waits, lock_of, cache_of, lock_info_of,
}
use dist_sys_demos.Transactions.App.Locks.Steps.{lock_of-IsHeld}
use dist_sys_demos.Transactions.App.Isolation.{IsSound, KeepsOthers, Does}
use dist_sys_demos.Transactions.Start.{no_application}
use dist_sys_demos.Transactions.Participant.{Command, forward_cmd, resume_cmd, commit}
use dist_sys_demos.Transactions.Participant.Runs.{Reach, starts, Reach-IsLocked, IsHeld-alone}
use dist_sys_demos.Transactions.Participant.Isolation.{Apart, Anything}
use dist_sys_demos.Transactions.Participant.Isolation.Commands.{forward_cmd-Does, resume_cmd-Does}
use dist_sys_demos.Transactions.Participant.Isolation.Ends.{commit-effects}

-- A command of the transaction returns, or waits at a lock, or goes on after a wait.
pub data Work (branch : Text) : Text → Application → Application → Type 0 where
  runs :
      (app app1 : Application) (cmd : Command) (reply : Text)
      → forward_cmd branch cmd app ≡ done reply app1
      → Work branch cmd.tid app app1
  blocks :
      (app app1 : Application) (cmd : Command)
      → forward_cmd branch cmd app ≡ waits app1
      → Work branch cmd.tid app app1
  resumes :
      (app app1 : Application) (cmd : Command) (reply : Text)
      → resume_cmd branch cmd app ≡ done reply app1
      → Work branch cmd.tid app app1

pub data Step (branch : Text) : Text → Application → Application → Type 0 where
  works :
      (tid : Text) (app app1 : Application) → Work branch tid app app1 → Step branch tid app app1
  ends :
      (do_commit : Bool) (tid : Text) (app app1 : Application) (replied : Bool)
      → commit do_commit tid app ≡ some (app1, replied)
      → Step branch tid app app1

-- The states of a branch under such steps.
pub data Run (branch : Text) : Application → Type 0 where
  begins : Run branch no_application
  steps :
      (tid : Text) (app app1 : Application)
      → Run branch app
      → Step branch tid app app1
      → Run branch app1

pub KeepsOthers-Apart :
    (tid : Text) (app app1 : Application) → KeepsOthers tid app app1 → Apart tid app app1
KeepsOthers-Apart tid app app1 (money, others) = (others, λ acct h. ap (lookup acct) money)

pub Work-effects :
    {branch tid : Text} {app app1 : Application}
    → Work branch tid app app1
    → IsSound app
    → IsSound app1 × KeepsOthers tid app app1
Work-effects {branch} (runs app app1 cmd reply e) v =
    let (w, k, _) = subst (Does cmd.tid Anything app) e (forward_cmd-Does branch cmd app v) in
    (w, k)
Work-effects {branch} (blocks app app1 cmd e) v =
    subst (Does cmd.tid Anything app) e (forward_cmd-Does branch cmd app v)
Work-effects {branch} (resumes app app1 cmd reply e) v =
    let (w, k, _) = subst (Does cmd.tid Anything app) e (resume_cmd-Does branch cmd app v) in (w, k)

pub Step-effects :
    {branch tid : Text} {app app1 : Application}
    → Step branch tid app app1
    → IsSound app
    → IsSound app1 × Apart tid app app1
Step-effects (works tid app app1 w) v =
    let (v1, k) = Work-effects w v in (v1, KeepsOthers-Apart tid app app1 k)
Step-effects (ends do_commit tid app app1 replied e) v =
    commit-effects do_commit tid app app1 replied v e

pub no_application-IsSound : (branch : Text) → IsSound no_application
no_application-IsSound branch = record {
  locked = (let r : Reach branch no_application = starts in Reach-IsLocked r);
  agrees = λ tid acct. ground (
    arith,
    lookup-nil {V = Dict Text Bool} tid,
    lookup-nil {V = Lock} acct,
    lookup-nil {V = Bool} acct,
    lookup-nil {V = Bool} tid,
  );
  cached = λ tid acct x h.
      absurd (ground (arith, lookup-nil {V = Dict Text ℤ} tid, lookup-nil {V = ℤ} acct, h));
  unique = λ tid. rw (lookup-nil {V = Dict Text ℤ} tid) tt;
}

pub Run-IsSound : {branch : Text} {app : Application} → Run branch app → IsSound app
Run-IsSound {branch} begins = no_application-IsSound branch
Run-IsSound (steps tid app app1 r s) = (Step-effects s (Run-IsSound r)).0

-- An account that one transaction has noted has not been changed by another.
pub noted-unchanged :
    (t tid acct : Text) (app : Application)
    → IsSound app
    → text_beq t tid ≡ false
    → lookup acct (lock_info_of app tid) ≢ none
    → lookup acct (cache_of app t) ≡ none
noted-unchanged t tid acct app v other noted = elim (Option-cases (lookup acct (cache_of app t))) [
  | inl unchanged ↦ unchanged
  | inr (x, changed) ↦
      let l = lock_of app acct in
      let writes = sym (v.agrees t acct) ∙ v.cached t acct x changed in
      let (_, _, alone) = IsHeld-alone t l (lock_of-IsHeld acct app v.locked) writes in
      absurd (
        noted (
          v.agrees tid acct
          ∙ alone tid (λ p. ground (arith, (text_beq_iff t tid).1 (sym p), other))))
]

-- In every state of a branch's runs, an account for which a transaction has cached a change is
-- noted by that transaction as written, its write lock is held, and no other transaction has noted
-- it or cached a change for it.
pub Run-covered :
    {branch : Text} {app : Application} (tid acct : Text) (x : ℤ)
    → Run branch app
    → lookup acct (cache_of app tid) ≡ some x
    → (lookup acct (lock_info_of app tid) ≡ some false)
      × ((lock_of app acct).rw_mu.writer ≡ true)
      × ((t : Text)
          → t ≢ tid
          → (lookup acct (lock_info_of app t) ≡ none) × (lookup acct (cache_of app t) ≡ none))
Run-covered {branch} {app} tid acct x r h =
    let v = Run-IsSound r in
    let l = lock_of app acct in
    let noted = v.cached tid acct x h in
    let writes = sym (v.agrees tid acct) ∙ noted in
    let (writer, _, alone) = IsHeld-alone tid l (lock_of-IsHeld acct app v.locked) writes in
    (
      noted,
      writer,
      λ t other. (
        v.agrees t acct ∙ alone t other,
        noted-unchanged t tid acct app v (ground (arith, text_beq_iff t tid, other))
            (λ gone. ground (arith, noted, gone)),
      ),
    )
