-- ===== src/Wal/Log.antt =====
-- crates/rdbms_wal/src/lib.rs: the LSN allocator, `WalWriter` and `WalReader`.
pub mod Reader
pub mod Writer
pub mod Layout
pub mod Read
pub mod Append
pub mod Torn
pub mod Total
