-- ===== src/Sequencer.antt =====
-- sequencer: signed transactions, the mempool's checks, the native executor and block production.
pub mod Tx
pub mod Registry
pub mod State
pub mod Mempool
pub mod Trace
pub mod Node
mod Tests
