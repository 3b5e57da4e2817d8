-- ===== src/Buckettree.antt =====
-- Package openchain/ledger/statemgmt/buckettree: the shape of the tree of buckets, and its keys.
pub mod Config
pub mod Levels
pub mod Tree
mod Tests
