-- ===== src/Transactions/Participant/Isolation.antt =====
-- transactions-demo/server/rpc.go: what the commands and the end of one transaction leave alone of
-- the others'.
pub mod Commands
pub mod Ends
pub mod Steps
pub mod Repeatable
pub mod Promises
pub mod Resumes
mod Tests
mod UpgradeTests
use dist_sys_demos.Base.{◌≡◌, none}
use dist_sys_demos.Base.Dict.{lookup}
use dist_sys_demos.Base.Text.{Text, text_eq}
use dist_sys_demos.Transactions.App.{Application, cache_of}
use dist_sys_demos.Transactions.App.Isolation.{OthersSame}

-- What a transaction leaves alone: the other transactions' caches and notes, and the accounts that
-- it has not changed.
abbrev pub Apart : Text → Application → Application → Type 0
Apart tid app app1 =
    OthersSame tid app app1
    × ((acct : Text)
        → lookup acct (cache_of app tid) ≡ none
        → lookup acct app1.committed_data ≡ lookup acct app.committed_data)

-- Whatever the state.
abbrev pub Anything : Application → Type 0
Anything app = Unit
