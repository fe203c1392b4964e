-- ===== src/Transactions/Coordinator.antt =====
-- transactions-demo/server/rpc.go: the coordinator of a transaction: `SendCoord`, `TwoPhaseCommit`
-- and `DoAbort`. The answers of the other servers are arguments, in the order in which they come.
pub mod Decision
use dist_sys_demos.Base.{
  ℕ, suc, Bool, true, false, Option, none, some, List, [], ◌∷◌, ◌++◌, length, if◌then◌else◌, ◌==◌,
}
use dist_sys_demos.Base.Dict.{Dict, lookup, insert, erase}
use dist_sys_demos.Base.Text.{Text, codes, text_eq, text_beq, split, trim_newline, atoi}
use dist_sys_demos.Base.Int.{ℤ, negsuc}
use dist_sys_demos.Transactions.App.{is_some, or_empty, reply_ok, reply_not_found}
use dist_sys_demos.Transactions.Participant.{Command}

-- The coordinator's maps, by transaction. `rpc_clients` says which branches are connected.
pub record Server : Type 0 where
  pub branch : Text
  pub can_commit : Dict Text ℕ
  pub have_committed : Dict Text ℕ
  pub related_branches : Dict Text (Dict Text Bool)
  pub rpc_clients : Dict Text Bool

-- What the coordinator starts: calls of the branches, the goroutine that drops a transaction, and
-- the one that first waits for the answers to COMMIT.
pub data Action : Type 0 where
  dial : Text → Action
  call_prepare : Text → Text → Action
  call_commit : Text → Text → Bool → Action
  call_forward : Command → Action
  go_forget : Text → Action
  go_await_committed : Text → Action

abbrev pub reply_commit_ok : Text
reply_commit_ok = codes "COMMIT OK"

abbrev pub reply_aborted : Text
reply_aborted = codes "ABORTED"

abbrev pub count_of : Option ℕ → ℕ
count_of none = 0
count_of (some n) = n

abbrev pub branches_of : Server → Text → Dict Text Bool
branches_of srv tid = or_empty (lookup tid srv.related_branches)

-- The deletes that end a transaction.
pub forget : Text → Server → Server
forget tid srv = record srv {
  can_commit = erase tid srv.can_commit;
  have_committed = erase tid srv.have_committed;
  related_branches = erase tid srv.related_branches;
}

abbrev pub call_all : (Text → Action) → Dict Text Bool → List Action
call_all call [] = []
call_all call ((b, x) ∷ bs) = call b ∷ call_all call bs

pub do_abort : Text → Server → Text × List Action
do_abort tid srv = (
  reply_aborted,
  call_all (λ b. call_commit b tid false) (branches_of srv tid) ++ (go_forget tid ∷ []),
)

-- The loop that collects the answers to PREPARE: the count, once the loop has ended. `none` is a
-- wait for an answer.
pub collect_votes : ℕ → ℕ → List Bool → Option ℕ
collect_votes need count [] = if count == need then some count else none
collect_votes need count (vote ∷ votes) =
    let rest = collect_votes need (suc count) votes in
    if count == need then some count else if vote then rest else some count

-- `TwoPhaseCommit`; `none` is a fatal error, for a transaction that is not known, or a wait for an
-- answer.
pub two_phase_commit : Text → List Bool → Server → Option (Server × Text × List Action)
two_phase_commit tid votes srv = elim (lookup tid srv.related_branches) [
  | none ↦ none
  | some branches ↦
      let asked = call_all (λ b. call_prepare b tid) branches in
      elim (collect_votes (length branches) (count_of (lookup tid srv.can_commit)) votes) [
        | none ↦ none
        | some count ↦
            let srv1 = record srv { can_commit = insert tid count srv.can_commit } in
            if count == length branches
            then some (
              srv1,
              reply_commit_ok,
              asked
                  ++ (call_all (λ b. call_commit b tid true) branches
                      ++ (go_await_committed tid ∷ [])),
            )
            else let (reply, sent) = do_abort tid srv1 in some (srv1, reply, asked ++ sent)
      ]
]

-- The goroutine that collects the answers to COMMIT: it drops the transaction when it has counted
-- enough of them. The flag says that it has.
pub await_committed : Text → List Bool → Server → Server × Bool
await_committed tid [] srv =
    if count_of (lookup tid srv.have_committed) == length (branches_of srv tid)
    then (forget tid srv, true)
    else (srv, false)
await_committed tid (answer ∷ answers) srv =
    let n = count_of (lookup tid srv.have_committed) in
    let srv1 = record srv {
      have_committed = if answer then insert tid (suc n) srv.have_committed else srv.have_committed;
    } in
    let rest = await_committed tid answers srv1 in
    if n == length (branches_of srv tid) then (forget tid srv, true) else rest

abbrev head_two : List Text → Option (Text × Text)
head_two [] = none
head_two (a ∷ []) = none
head_two (a ∷ b ∷ l) = some (a, b)

-- `splited[2]` and its value.
abbrev amount_of : List Text → Option ℤ
amount_of (m ∷ target ∷ amount ∷ l) = atoi amount
amount_of _ = none

-- DEPOSIT, WITHDRAW or BALANCE; `none` is a part that is missing, or an amount that is no number.
-- A command of two parts has the amount -1.
pub parse_command : Text → Text → Option Command
parse_command tid line =
    let parts = split 32 (trim_newline line) in
    elim (head_two parts) [
      | none ↦ none
      | some (method, target) ↦ elim (head_two (split 46 target)) [
        | none ↦ none
        | some (branch, account) ↦
            elim (if length parts == 2 then some (negsuc 0) else amount_of parts) [
              | none ↦ none
              | some amount ↦ some (record {
                tid = tid;
                branch = branch;
                account = account;
                method = method;
                amount = amount;
              })
            ]
      ]
    ]

pub begin_tx : Text → Server → Server
begin_tx tid srv = record srv {
  can_commit = insert tid 0 srv.can_commit;
  have_committed = insert tid 0 srv.have_committed;
  related_branches = insert tid [] srv.related_branches;
}

-- A command for a branch, whose reply is passed on; after NOT FOUND the transaction is aborted.
-- A write into the branches of a transaction that is not known panics.
pub forward : Command → Text → Server → Option (Server × Text × List Action)
forward cmd answer srv = elim (lookup cmd.tid srv.related_branches) [
  | none ↦ none
  | some branches ↦
      let connected = is_some (lookup cmd.branch srv.rpc_clients) in
      let srv1 = record srv {
        rpc_clients = if connected then srv.rpc_clients else insert cmd.branch true srv.rpc_clients;
        related_branches =
            if is_some (lookup cmd.branch branches)
            then srv.related_branches
            else insert cmd.tid (insert cmd.branch true branches) srv.related_branches;
      } in
      let dialled = if connected then [] else dial cmd.branch ∷ [] in
      let aborts = if text_beq answer reply_not_found then (do_abort cmd.tid srv1).1 else [] in
      some (srv1, answer, dialled ++ (call_forward cmd ∷ aborts))
]

-- `SendCoord`
pub send_coord : Text → Text → Text → List Bool → Server → Option (Server × Text × List Action)
send_coord tid line answer votes srv =
    if text_beq line (codes "BEGIN")
    then some (begin_tx tid srv, reply_ok, [])
    else if text_beq line (codes "COMMIT")
    then two_phase_commit tid votes srv
    else if text_beq line (codes "ABORT")
    then some (srv, (do_abort tid srv).0, (do_abort tid srv).1)
    else elim (parse_command tid line) [ none ↦ none | some cmd ↦ forward cmd answer srv ]
