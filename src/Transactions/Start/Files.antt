-- ===== src/Transactions/Start/Files.antt =====
-- transactions-demo/server/server.go: the configuration file of a server.
use dist_sys_demos.Base.{
  ◌≡◌, refl, ap, ◌∙◌, none, some, List, [], ◌∷◌, ◌++◌, append-nil, if◌then◌else◌,
}
use dist_sys_demos.Base.Dict.{Dict, insert}
use dist_sys_demos.Base.Text.{Text, text_eq, text_beq, split, trim_newline, read_strings}
use dist_sys_demos.Base.Text.Parts.{
  Lacks, split-last, split-word, trim_newline-line, trim_newline-Lacks, append-Lacks,
  read_strings-line, read_strings-last,
}
use dist_sys_demos.Transactions.Start.{BranchAddr, Branches, read_branch, read_branches, read_file}

-- A line of the file.
abbrev pub line_of : Text × BranchAddr → Text
line_of (name, a) = name ++ 32 ∷ (a.addr ++ 32 ∷ a.port)

-- A file with a line for each entry, and what stands behind the last one.
abbrev pub file_of : Text × BranchAddr → List (Text × BranchAddr) → Text → Text
file_of e [] end = line_of e ++ end
file_of e (f ∷ entries) end = line_of e ++ 10 ∷ file_of f entries end

-- Neither a space nor a newline.
abbrev pub IsWord : Text → Type 0
IsWord s = Lacks 32 s × Lacks 10 s

abbrev pub AllWords : List (Text × BranchAddr) → Type 0
AllWords [] = Unit
AllWords ((name, a) ∷ entries) = (IsWord name × IsWord a.addr × IsWord a.port) × AllWords entries

-- The entries in their order, later ones over earlier ones of the same name.
abbrev pub branch_map : List (Text × BranchAddr) → Dict Text BranchAddr → Dict Text BranchAddr
branch_map [] info = info
branch_map ((name, a) ∷ entries) info = branch_map entries (insert name a info)

-- The port of the last entry for the branch.
abbrev pub port_of : Text → List (Text × BranchAddr) → Text → Text
port_of branch [] port = port
port_of branch ((name, a) ∷ entries) port =
    port_of branch entries (if text_beq branch name then a.port else port)

split-line :
    (name : Text) (a : BranchAddr)
    → IsWord name × IsWord a.addr × IsWord a.port
    → split 32 (line_of (name, a)) ≡ name ∷ a.addr ∷ a.port ∷ []
split-line name a (n, d, p) =
    rw
      (
        split-word 32 name (a.addr ++ 32 ∷ a.port) refl n.0,
        split-word 32 a.addr a.port refl d.0,
        split-last 32 a.port p.0,
      )
      refl

line_of-Lacks :
    (name : Text) (a : BranchAddr)
    → IsWord name × IsWord a.addr × IsWord a.port
    → Lacks 10 (line_of (name, a))
line_of-Lacks name a (n, d, p) =
    append-Lacks 10 name (32 ∷ (a.addr ++ 32 ∷ a.port)) n.1
      (refl, append-Lacks 10 a.addr (32 ∷ a.port) d.1 (refl, p.1))

-- What the loop does with one line: the entry is put into the map.
abbrev with_entry : Text × BranchAddr → Branches → Branches
with_entry (name, a) srv = record srv {
  port = if text_beq srv.branch name then a.port else srv.port;
  branch_info = insert name a srv.branch_info;
}

read_branches-entry :
    (name : Text) (a : BranchAddr) (line : Text) (lines : List Text) (srv : Branches)
    → IsWord name × IsWord a.addr × IsWord a.port
    → trim_newline line ≡ line_of (name, a)
    → read_branches (line ∷ lines) srv ≡ read_branches lines (with_entry (name, a) srv)
unfolding read_branches read_branch
read_branches-entry name a line lines srv h e = rw (e, split-line name a h, read_branches) refl

-- An empty line has no second part.
read_branches-empty : (lines : List Text) (srv : Branches) → read_branches ([] ∷ lines) srv ≡ none
unfolding read_branches read_branch
read_branches-empty lines srv =
    rw (trim_newline-Lacks [] tt, split-last 32 [] tt, read_branches) refl

-- A file of lines that hold a name, an address and a port, none of them with a space or a newline,
-- and each line but the last with a newline, is read as what it says: for each name the last entry,
-- and the port of the last entry for the server's branch. If the last line has a newline too, the
-- server panics: an empty line is read behind it.
pub read_file-lines :
    (e : Text × BranchAddr) (entries : List (Text × BranchAddr)) (srv : Branches)
    → AllWords (e ∷ entries)
    → (read_file (file_of e entries []) srv
        ≡ some (record srv {
          port = port_of srv.branch (e ∷ entries) srv.port;
          branch_info = branch_map (e ∷ entries) srv.branch_info;
        }))
      × (read_file (file_of e entries (10 ∷ [])) srv ≡ none)
unfolding read_file read_branches read_branch
read_file-lines (name, a) [] srv (h, rest) =
    let line = line_of (name, a) in
    let plain = line_of-Lacks name a h in
    (
      ap (λ (f : Text). read_file f srv) (append-nil line)
          ∙ ap (λ ls. read_branches ls srv) (read_strings-last line plain)
          ∙ read_branches-entry name a line [] srv h (trim_newline-Lacks line plain),
      ap (λ ls. read_branches ls srv)
            (read_strings-line line [] plain
              ∙ ap (λ ls. (line ++ 10 ∷ []) ∷ ls) (read_strings-last [] tt))
          ∙ read_branches-entry name a (line ++ 10 ∷ []) ([] ∷ []) srv h (trim_newline-line line)
          ∙ read_branches-empty [] (with_entry (name, a) srv),
    )
read_file-lines (name, a) (f ∷ entries) srv (h, rest) =
    let line = line_of (name, a) in
    let plain = line_of-Lacks name a h in
    let ih = read_file-lines f entries (with_entry (name, a) srv) rest in
    let step : (end : Text)
        → read_file (line ++ 10 ∷ file_of f entries end) srv
          ≡ read_file (file_of f entries end) (with_entry (name, a) srv) =
      λ end.
        ap (λ ls. read_branches ls srv) (read_strings-line line (file_of f entries end) plain)
        ∙ read_branches-entry name a (line ++ 10 ∷ []) (read_strings (file_of f entries end)) srv h
            (trim_newline-line line) in
    (step [] ∙ ih.0, step (10 ∷ []) ∙ ih.1)
