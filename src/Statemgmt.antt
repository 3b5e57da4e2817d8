-- ===== src/Statemgmt.antt =====
-- Package openchain/ledger/statemgmt: the changes to the world state, and the state that keeps them.
pub mod Delta
pub mod State
mod Tests
pub mod CodecTests
