-- ===== src/Transactions.antt =====
-- transactions-demo: a bank whose branches commit transactions together.
pub mod App
pub mod Participant
pub mod Coordinator
pub mod Client
pub mod Start
pub mod Bank
mod Tests
