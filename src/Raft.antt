-- ===== src/Raft.antt =====
-- raft-demo/src/raft: a Raft peer, handler by handler.
pub mod State
pub mod Election
pub mod Log
pub mod Append
pub mod Leader
pub mod Cluster
mod Tests
