-- ===== src/Extension.antt =====
-- crates/rdbms_extension/src/lib.rs: the registry of static extensions and the functions of `stdlib`.
pub mod Registry
pub mod Stdlib
pub mod Load
pub mod Functions
pub mod Guarded
pub mod Kept
mod Runs
