-- ===== src/Transactions/Participant/Isolation/Repeatable.antt =====
-- transactions-demo/server/rpc.go and account.go: what a transaction has read and what it has been
-- promised stays, whatever the other transactions do.
use dist_sys_demos.Base.{◌≡◌, ◌≢◌, refl, sym, ap, ◌∙◌, Bool, false, none, [], ◌∷◌, arith}
use dist_sys_demos.Base.Dict.{Dict, lookup, lookup-cons}
use dist_sys_demos.Base.Text.{Text, text_eq, text_beq, text_beq_iff}
use dist_sys_demos.Transactions.App.{Accounts, Application, cache_of, lock_info_of, read_balance}
use dist_sys_demos.Transactions.App.Isolation.{IsSound}
use dist_sys_demos.Transactions.App.Isolation.Stores.{read_balance-same}
use dist_sys_demos.Transactions.Participant.{can_commit, prepare}
use dist_sys_demos.Transactions.Participant.Isolation.{Apart}
use dist_sys_demos.Transactions.Participant.Isolation.Steps.{
  Step, Run, Run-IsSound, Step-effects, noted-unchanged,
}

-- Steps of the transactions other than `tid`.
pub data Others (branch : Text) (tid : Text) : Application → Application → Type 0 where
  nobody : (app : Application) → Others branch tid app app
  another :
      (app app1 app2 : Application) (t : Text)
      → Others branch tid app app1
      → text_beq t tid ≡ false
      → Step branch t app1 app2
      → Others branch tid app app2

-- What a transaction sees: its changes, its notes, and the balances that it has noted.
pub record SameView (tid : Text) (app app1 : Application) : Type 0 where
  pub changes : cache_of app1 tid ≡ cache_of app tid
  pub notes : lock_info_of app1 tid ≡ lock_info_of app tid
  pub balances :
      (acct : Text)
      → lookup acct (lock_info_of app tid) ≢ none
      → lookup acct app1.committed_data ≡ lookup acct app.committed_data

pub SameView-trans :
    (tid : Text) (app app1 app2 : Application)
    → SameView tid app app1
    → SameView tid app1 app2
    → SameView tid app app2
SameView-trans tid app app1 app2 v w = record {
  changes = w.changes ∙ v.changes;
  notes = w.notes ∙ v.notes;
  balances = λ acct noted.
      w.balances acct (λ gone. noted (ap (lookup acct) (sym v.notes) ∙ gone))
      ∙ v.balances acct noted;
}

pub Apart-SameView :
    (t tid : Text) (app app1 : Application)
    → IsSound app
    → text_beq t tid ≡ false
    → Apart t app app1
    → SameView tid app app1
Apart-SameView t tid app app1 v other (same, money) = record {
  changes = (same tid other).0;
  notes = (same tid other).1;
  balances = λ acct noted. money acct (noted-unchanged t tid acct app v other noted);
}

Others-SameView :
    {branch tid : Text} {app app1 : Application}
    → Others branch tid app app1
    → IsSound app
    → IsSound app1 × SameView tid app app1
Others-SameView (nobody app) v =
    (v, record { changes = refl; notes = refl; balances = λ acct noted. refl })
Others-SameView {branch} {tid} (another app app1 app2 t o other s) v =
    let (v1, same) = Others-SameView o v in
    let (v2, apart) = Step-effects s v1 in
    (v2, SameView-trans tid app app1 app2 same (Apart-SameView t tid app1 app2 v1 other apart))

can_commit-same :
    (committed committed1 changes : Accounts) (info : Dict Text Bool)
    → ((acct : Text) → lookup acct info ≢ none → lookup acct committed1 ≡ lookup acct committed)
    → can_commit committed1 changes info ≡ can_commit committed changes info
unfolding can_commit
can_commit-same committed committed1 changes [] h = refl
can_commit-same committed committed1 changes ((acct, r) ∷ info) h =
    let here =
      h acct (λ gone. ground (arith, lookup-cons acct acct r info, text_beq_iff acct acct, gone)) in
    let rest = can_commit-same committed committed1 changes info (λ acct1 noted.
      h acct1 (λ gone. ground (arith, noted, lookup-cons acct1 acct r info, gone))) in
    rw (here, rest) refl

pub prepare-same :
    (tid : Text) (app app1 : Application)
    → SameView tid app app1
    → prepare tid app1 ≡ prepare tid app
unfolding prepare
prepare-same tid app app1 v =
    rw (v.changes, v.notes)
      (can_commit-same app.committed_data app1.committed_data (cache_of app tid)
        (lock_info_of app tid) v.balances)

-- However many steps the other transactions take from a state of a branch's runs, commits, aborts
-- and waits among them, the answer of `Prepare` to a transaction stays what it was.
pub Others-prepare :
    {branch tid : Text} {app app1 : Application}
    → Run branch app
    → Others branch tid app app1
    → prepare tid app1 ≡ prepare tid app
Others-prepare {branch} {tid} {app} {app1} r o =
    prepare-same tid app app1 (Others-SameView o (Run-IsSound r)).1

-- However many steps the other transactions take from a state of a branch's runs, a transaction
-- that has noted an account still has it noted, in the same mode, has the same changes cached, and
-- reads the same balance there.
pub Others-reads :
    {branch tid : Text} {app app1 : Application} (acct : Text)
    → Run branch app
    → Others branch tid app app1
    → lookup acct (lock_info_of app tid) ≢ none
    → (lookup acct (lock_info_of app1 tid) ≡ lookup acct (lock_info_of app tid))
      × (cache_of app1 tid ≡ cache_of app tid)
      × (read_balance tid acct app1 ≡ read_balance tid acct app)
Others-reads {branch} {tid} {app} {app1} acct r o noted =
    let same = (Others-SameView o (Run-IsSound r)).1 in
    (
      ap (lookup acct) same.notes,
      same.changes,
      read_balance-same tid acct app app1 same.changes (same.balances acct noted),
    )
