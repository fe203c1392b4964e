-- ===== src/Transactions/Start.antt =====
-- transactions-demo/server/server.go: the configuration that a server reads, and the state that it
-- starts with. The file is its text.
pub mod Files
use dist_sys_demos.Base.{Bool, true, false, Option, none, some, List, [], ◌∷◌, if◌then◌else◌}
use dist_sys_demos.Base.Dict.{Dict, insert}
use dist_sys_demos.Base.Text.{Text, text_eq, text_beq, split, trim_newline, read_strings}
use dist_sys_demos.Transactions.App.{Application}
use dist_sys_demos.Transactions.Coordinator.{Server}

pub record BranchAddr : Type 0 where
  pub addr : Text
  pub port : Text

-- The fields of `Server` that the configuration sets, and its branch.
pub record Branches : Type 0 where
  pub branch : Text
  pub port : Text
  pub branch_info : Dict Text BranchAddr

-- A line's first three parts; `none` is a part that is missing.
pub read_branch : List Text → Branches → Option Branches
read_branch (cur_branch ∷ cur_addr ∷ cur_port ∷ rest) srv = some (record srv {
  port = if text_beq srv.branch cur_branch then cur_port else srv.port;
  branch_info = insert cur_branch (record { addr = cur_addr; port = cur_port }) srv.branch_info;
})
read_branch _ srv = none

-- The loop of `readFile`, over what its reads return. It ends with the read at the end of the file,
-- after that line too has been parsed.
pub read_branches : List Text → Branches → Option Branches
read_branches [] srv = some srv
read_branches (line ∷ lines) srv = elim (read_branch (split 32 (trim_newline line)) srv) [
  | none ↦ none
  | some srv1 ↦ read_branches lines srv1
]

-- `readFile`, on the text of the file.
pub read_file : Text → Branches → Option Branches
unfolding read_branches read_strings
read_file file srv = read_branches (read_strings file) srv

-- The maps of `Start`.
abbrev pub no_application : Application
no_application = record { locks = []; tx_lock_info = []; committed_data = []; cache = [] }

abbrev pub new_server : Text → Server
new_server branch = record {
  branch = branch;
  can_commit = [];
  have_committed = [];
  related_branches = [];
  rpc_clients = [];
}

-- `Start`, up to the loop that accepts connections.
pub start_server : Text → Text → Option (Branches × Server × Application)
start_server branch file =
    elim (read_file file (record { branch = branch; port = []; branch_info = [] })) [
      | none ↦ none
      | some srv ↦ some (srv, new_server branch, no_application)
    ]
