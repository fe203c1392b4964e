-- ===== src/Multicast/Node.antt =====
-- multicast-demo/types/node.go: the configuration of a node, the state that it starts with, and the
-- messages that it makes of the console's lines. Connections, names that are resolved to addresses,
-- and fresh ids are arguments. `none` is an error that ends the process, or a part that is missing.
pub mod Lines
use dist_sys_demos.Base.{
  ℕ, zero, suc, ◌+◌, Bool, true, false, Option, none, some, List, [], ◌∷◌, ◌++◌, length, drop,
  if◌then◌else◌,
}
use dist_sys_demos.Base.Int.{ℤ, pos, negsuc}
use dist_sys_demos.Base.Dict.{Dict}
use dist_sys_demos.Base.Text.{Text, codes, text_beq, split, trim_newline, itoa, atoi}
use dist_sys_demos.Multicast.Queue.{Message, initial}
use dist_sys_demos.Multicast.Members.{Multicast}

pub record SockAddr : Type 0 where
  pub node_id : Text
  pub host : Text
  pub ip : Text
  pub port : Text

-- `Node`, without the ledger and the protocol, which have states of their own.
pub record Node : Type 0 where
  pub id : Text
  pub port : Text
  pub pool : List SockAddr

-- A line of the configuration: a node, its host and its port. `resolve` stands for
-- `net.ResolveIPAddr`.
pub read_line : (Text → Option Text) → List Text → Node → Option Node
read_line resolve (node_id ∷ host ∷ port ∷ rest) n = elim (resolve host) [
  | none ↦ none
  | some ip ↦ some (record n {
    port = if text_beq node_id n.id then port else n.port;
    pool = n.pool ++ (record { node_id = node_id; host = host; ip = ip; port = port } ∷ []);
  })
]
read_line resolve _ n = none

-- The loop of `readConf`: so many lines, the missing ones empty.
pub read_lines : (Text → Option Text) → ℕ → List Text → Node → Option Node
read_lines resolve zero lines n = some n
read_lines resolve (suc k) [] n = elim (read_line resolve (split 32 []) n) [
  | none ↦ none
  | some n1 ↦ read_lines resolve k [] n1
]
read_lines resolve (suc k) (line ∷ lines) n =
    elim (read_line resolve (split 32 (trim_newline line)) n) [
      | none ↦ none
      | some n1 ↦ read_lines resolve k lines n1
    ]

-- `readConf`: the first line holds the number of nodes. No round is made for a negative one.
pub read_conf : (Text → Option Text) → List Text → Node → Option (Node × ℤ)
read_conf resolve [] n = none
read_conf resolve (first ∷ lines) n = elim (atoi (trim_newline first)) [
  | none ↦ none
  | some (negsuc k) ↦ some (n, negsuc k)
  | some (pos k) ↦ elim (read_lines resolve k lines n) [ none ↦ none | some n1 ↦ some (n1, pos k) ]
]

-- The renaming of the pool in `Run`, from number `i` on: the nodes are called "node1", "node2", and
-- so on.
pub rename : ℕ → List SockAddr → List SockAddr
rename i [] = []
rename i (s ∷ pool) =
    record s { node_id = codes "node" ++ itoa (pos (i + 1)) } ∷ rename (suc i) pool

-- The number of the last entry with the given name, 0 if there is none.
pub index_of : Text → ℕ → ℕ → List SockAddr → ℕ
index_of id i nidx [] = nidx
index_of id i nidx (s ∷ pool) =
    index_of id (suc i) (if text_beq s.node_id id then suc i else nidx) pool

-- The names that `Run` gives to the node and to its pool.
pub name_nodes : Node → Node
name_nodes n = record n {
  id = codes "node" ++ itoa (pos (index_of n.id 0 0 n.pool));
  pool = rename 0 n.pool;
}

abbrev pub head_of : List Text → Text
head_of [] = []
head_of (x ∷ l) = x

-- The node that a connection comes from: the last entry with the address in front of the colon, and
-- no name if there is none.
pub peer_name : Text → List SockAddr → Text → Text
peer_name ip [] d_nid = d_nid
peer_name ip (s ∷ pool) d_nid = peer_name ip pool (if text_beq s.ip ip then s.node_id else d_nid)

pub accept_from : Text → Node → Text
accept_from remote_addr n = peer_name (head_of (split 58 remote_addr)) n.pool []

abbrev pub no_failures : List Text → Dict Text Bool
no_failures [] = []
no_failures (id ∷ ids) = (id, false) ∷ no_failures ids

abbrev pub no_counts : List Text → Dict Text ℕ
no_counts [] = []
no_counts (id ∷ ids) = (id, 0) ∷ no_counts ids

-- The state of the protocol before the first round of `ISIS`, with the nodes that are connected.
pub start_multicast : Node → ℕ → List Text → Multicast
start_multicast n num_of_nodes connected = record {
  a = 0;
  p = 0;
  cur_node_id = n.id;
  alive_nodes = num_of_nodes;
  nfail_check = no_failures connected;
  message_check = [];
  message_n_check = no_counts connected;
  pq = [];
  proposals = [];
  repliers = [];
}

-- The parts of a console's line that go into a message.
pub record Tx : Type 0 where
  pub is_deposit : Bool
  pub names : List Text
  pub amount : ℤ

abbrev pub with_amount : Bool → List Text → Option ℤ → Option Tx
with_amount d names none = none
with_amount d names (some v) = some (record { is_deposit = d; names = names; amount = v })

pub parse_deposit : List Text → Option Tx
parse_deposit (c ∷ name ∷ amount ∷ rest) = with_amount true (name ∷ []) (atoi amount)
parse_deposit _ = none

-- The source, an arrow, the destination and the amount.
pub parse_transfer : List Text → Option Tx
parse_transfer (c ∷ src ∷ arrow ∷ dest ∷ amount ∷ rest) =
    with_amount false (src ∷ dest ∷ []) (atoi amount)
parse_transfer _ = none

-- Everything that is no DEPOSIT is a TRANSFER.
pub parse_tx : Text → Option Tx
parse_tx tx =
    let tx_list = split 32 (trim_newline tx) in
    if text_beq (head_of tx_list) (codes "DEPOSIT")
    then parse_deposit tx_list
    else parse_transfer tx_list

abbrev pub nat_of : Option ℤ → Option ℕ
nat_of (some (pos n)) = some n
nat_of _ = none

-- A line of the console as a message with a fresh id. The sender is the number behind "node", which
-- is not negative.
pub make_message : Text → Text → Node → Option Message
make_message fresh tx n = elim (parse_tx tx) [
  | none ↦ none
  | some t ↦ elim (nat_of (atoi (drop 4 n.id))) [
    | none ↦ none
    | some sender ↦ some (record {
      id = fresh;
      sender = sender;
      priority = 0;
      index = none;
      node_id = n.id;
      r_node_id = n.id;
      status = initial;
      is_deliverable = false;
      is_deposit = t.is_deposit;
      names = t.names;
      amount = t.amount;
    })
  ]
]
