-- ===== src/Tx.antt =====
-- crates/rdbms_tx/src/lib.rs: write transactions over the catalog store and the log.
pub mod Pages
pub mod State
pub mod Work
pub mod Open
pub mod Stages
pub mod IndexStages
pub mod Isolation
pub mod Failed
pub mod Sorted
pub mod Log
pub mod Images
pub mod Durable
pub mod Index
mod Runs
mod IndexRuns
