-- ===== src/Transactions/Client.antt =====
-- transactions-demo/client/client.go: the client, which sends the lines of the console to one server.
-- What it reads is an argument: the complete lines, and with each the server that is picked if it is
-- a BEGIN, and the reply that comes if it is sent.
pub mod Session
use dist_sys_demos.Base.{
  ℕ, Bool, true, false, ◌||◌, Option, none, some, List, [], ◌∷◌, ◌++◌, get_elem?, if◌then◌else◌,
  ◌==◌,
}
use dist_sys_demos.Base.Text.{Text, codes, text_beq, split, trim_newline, read_strings}
use dist_sys_demos.Transactions.App.{reply_not_found}
use dist_sys_demos.Transactions.Coordinator.{reply_commit_ok, reply_aborted}

-- `branchInfo`
pub record BranchInfo : Type 0 where
  pub branch : Text
  pub addr : Text
  pub port : Text

-- A line's first three parts; `none` is a part that is missing.
abbrev pub three_parts : List Text → Option BranchInfo
three_parts (b ∷ a ∷ p ∷ l) = some (record { branch = b; addr = a; port = p })
three_parts _ = none

-- The loop of `readConfig`, over what its reads return. It ends with the read at the end of the
-- file, after that line too has been parsed.
pub config_lines : List Text → Option (List BranchInfo)
config_lines [] = some []
config_lines (line ∷ lines) = elim (three_parts (split 32 (trim_newline line))) [
  | none ↦ none
  | some b ↦ elim (config_lines lines) [ none ↦ none | some bs ↦ some (b ∷ bs) ]
]

-- `readConfig`, on the text of the file.
pub read_config : Text → Option (List BranchInfo)
unfolding config_lines read_strings
read_config file = config_lines (read_strings file)

abbrev is_blank : ℕ → Bool
is_blank c = c == 32 || (c == 13 || c == 10)

abbrev cons_unless_blank : ℕ → Text → Text
cons_unless_blank c [] = if is_blank c then [] else c ∷ []
cons_unless_blank c (d ∷ s) = c ∷ d ∷ s

abbrev trim_right : Text → Text
trim_right [] = []
trim_right (c ∷ s) = cons_unless_blank c (trim_right s)

abbrev trim_left : Text → Text
trim_left [] = []
trim_left (c ∷ s) = let rest = trim_left s in if is_blank c then rest else c ∷ s

-- `strings.Trim(line, " \r\n")`
pub trim : Text → Text
trim line = trim_right (trim_left line)

pub record Round : Type 0 where
  pub line : Text
  pub pick : ℕ
  pub reply : Text

pub data ClientAction : Type 0 where
  dial : BranchInfo → ClientAction
  send : Text → ClientAction
  println : Text → ClientAction

-- The replies that end the transaction.
abbrev pub is_final : Text → Bool
is_final reply =
    text_beq reply reply_aborted
    || (text_beq reply reply_not_found || text_beq reply reply_commit_ok)

-- The loop of `processTransaction`; `connected` says whether `coordClient` has been set. `none` is a
-- call without it, or a pick that is out of range.
pub process_transaction : List BranchInfo → Bool → List Round → Option (List ClientAction)
process_transaction branches connected [] = some []
process_transaction branches connected (r ∷ rounds) =
    let line = trim r.line in
    let rest = process_transaction branches true rounds in
    let here = send line ∷ println r.reply ∷ [] in
    elim (if text_beq line (codes "BEGIN")
      then elim (get_elem? branches r.pick) [ none ↦ none | some b ↦ some (dial b ∷ here) ]
      else if connected
      then some here
      else none) [
        | none ↦ none
        | some acts ↦
            if is_final r.reply
            then some acts
            else elim rest [ none ↦ none | some more ↦ some (acts ++ more) ]
      ]
