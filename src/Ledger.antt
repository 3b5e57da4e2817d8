-- ===== src/Ledger.antt =====
-- Package openchain/ledger: the chain of blocks, its indexes, and the batches of transactions.
pub mod Store
pub mod Block
pub mod Indexes
pub mod Blockchain
pub mod Batches
pub mod Proto
pub mod Chain
pub mod Verify
pub mod Outcome
pub mod CommitSteps
pub mod Commit
pub mod Preview
pub mod RawBlocks
pub mod Handover
pub mod BatchHandover
pub mod History
pub mod StateHistory
pub mod Lookup
pub mod Queries
pub mod Restart
pub mod Codecs
pub mod World
pub mod Samples
mod Tests
