-- ===== src/Transactions/App/Isolation/Upgrade.antt =====
-- transactions-demo/server/account.go: a read lock that is upgraded is given back first.
use dist_sys_demos.Base.Dict.{Dict}
use dist_sys_demos.Base.Text.{Text, text_eq}
