-- ===== src/Pbft.antt =====
-- PBFT consensus: openchain/consensus/obcpbft.
pub mod Messages
pub mod Replica
pub mod Quorum
pub mod Timer
pub mod Ordering
pub mod Checkpoints
pub mod Execution
pub mod ViewChange
pub mod Assignment
pub mod NewView
pub mod Receive
pub mod Start
pub mod Agreement
mod Tests
