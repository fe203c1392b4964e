-- ===== src/Multicast.antt =====
-- multicast-demo: totally ordered multicast, and the ledger that it feeds.
pub mod Queue
pub mod Members
pub mod Isis
pub mod Node
pub mod Ledger
mod Tests
