-- ===== src/Lib.antt =====
-- Models and proofs for the three programs of this repository.
--
-- raft-demo/src/raft is one peer of a Raft group (Raft). Its state is the struct `Raft`; two RPC
-- handlers and the goroutines of its three roles change it under one mutex. Each critical section
-- is a function from the state to the new state, the reply and the effects (sends on a channel,
-- goroutines and calls that are started), in the order of the source.
--   Raft.State     the structs of raft.go, rpc.go and util.go, `Make`, `Kill` and `GetState`
--   Raft.Election  `RequestVote`, `isCandUpToDate`, `isElected`, and the sections of `toFollower`,
--                  `toCandidate` and `startElection`
--   Raft.Append    `AppendEntries`, with a function for each loop and each early return
--   Raft.Leader    `Start`, `toLeader`, `replicate`, `handleReply` and `commitAt`
--   Raft.Log       logs whose entries carry their own positions
--   Raft.Cluster   a group of peers with the calls that are under way, as a step relation
-- The two critical sections of `Start`, and those of a round of `handleReply`, are taken in one
-- piece. The commands are a parameter. Log indices and terms are natural numbers, `nextIndex` is an
-- integer since it counts down unchecked; a -1 in `votedFor` or `PrevLogTerm` is `none`. An
-- operation that can read a slice out of range returns an `Option`, and `none` is the panic.
--
-- transactions-demo is a bank with a coordinator and branches (Transactions).
--   Transactions.App          server/account.go: accounts, caches and read-write locks
--   Transactions.Participant  server/rpc.go: `ForwardCmd`, `Prepare` and `Commit`
--   Transactions.App.Isolation, Transactions.Participant.Isolation
--                             what the operations of one transaction leave alone of the others'
--   Transactions.Coordinator  server/rpc.go: `SendCoord`, `TwoPhaseCommit` and `DoAbort`
--   Transactions.Client       client/client.go: `readConfig` and `processTransaction`
--   Transactions.Bank         server/rpc.go: the coordinator's calls, carried out at the branches
--   Transactions.Start        server/server.go: `readFile` and the state that `Start` sets up
-- A coordinator's commands reach a participant's `forward_cmd`, which calls the operations of the
-- accounts. `sync.RWMutex` is a count of readers and a flag. An operation of the accounts ends in
-- an `Outcome`: it returns, it waits at a lock in the state that it has reached, or the process
-- dies. The runs of a branch over all transactions are a step relation
-- (Transactions.Participant.Runs), where a command that waits goes on when the lock can be had. In
-- the runs by transaction (Transactions.Participant.Isolation.Steps) a command takes one step up to
-- its end or its wait, and `resume_cmd` is the step that goes on after the wait; the promises of
-- two-phase commit are added in Transactions.Participant.Isolation.Promises. The answers of other
-- servers are arguments, in the order in which they come. Transactions.Bank takes them from the
-- branches, for one round, and Transactions.Bank.Runs lets all branches and any number of
-- coordinators run together: the calls of `Commit` that a coordinator makes are carried out later,
-- in any order, each at most once, and a client asks for the end of a transaction once.
--
-- multicast-demo/types is one node of a totally ordered multicast that feeds a ledger (Multicast).
--   Multicast.Ledger  application.go: `Deposit`, `Transfer`, `ListenFrom` and `print`
--   Multicast.Queue   message.go and priority_queue.go, with container/heap: the messages in order
--                     of priority, each with its position in its field `Index`
--   Multicast.Members multicast.go: the fields of a node, `Cast`, a round of `Deliver`, and what `ISIS`
--                     does about nodes that have failed
--   Multicast.Isis    multicast.go: a round of `ISIS`, with one function for each of its branches and
--                     loops
--   Multicast.Node    node.go: `readConf`, the names and the state that `Run` sets up, and the
--                     messages that it makes of the console's lines
-- A node's console makes messages, which `Cast` sends to all nodes; what `Deliver` reads goes to
-- `ISIS`, whose sends are values here, in their order; the messages that `ISIS` delivers are those
-- that `ListenFrom` applies to the ledger. A message in the queue is named by its position, where
-- the source has a pointer to it.
--
-- Go's ints are unbounded, as ℕ or as the ℤ of Base.Int: an equation on sums and differences of
-- balances holds of Go's 64 bits modulo 2 ^ 64, and an order between balances as long as no sum
-- overflows. A configuration file is its text. Maps are association lists in the order
-- of insertion (Base.Dict), so that an iteration takes one of Go's orders; strings are lists of
-- bytes (Base.Text). Every loop is a structural recursion over its list or its number of rounds.
-- The digits of `strconv.Itoa` take one round more than the number, the heap's `up` one more than
-- the place, its `down` one more than the queue's length, and the delivery loop one for each
-- message; that these are enough is part of what is proved.
--
-- Not modelled: raft-demo/src/labrpc and labgob (libraries that the peers only call), timers and
-- tracing, connections and the goroutines that serve them, the files and the transcript that the
-- programs write, and the mutexes of multicast-demo: a round of `ISIS` is one step.
pub mod Base
pub mod Raft
pub mod Transactions
pub mod Multicast
