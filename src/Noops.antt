-- ===== src/Noops.antt =====
-- Package openchain/consensus/noops: the plugin that orders transactions by their arrival.
pub mod Txq
pub mod Plugin
pub mod Fifo
pub mod Runs
pub mod Progress
mod Tests
