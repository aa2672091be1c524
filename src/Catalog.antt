-- ===== src/Catalog.antt =====
-- crates/rdbms_catalog/src/lib.rs: the catalog in page 0 and the heap tables.
pub mod Format
pub mod Encode
pub mod RoundTrip
pub mod Saved
pub mod Consistent
pub mod Keeps
pub mod Changed
pub mod Evolve
pub mod Reachable
pub mod Found
mod Runs
pub mod Meta
pub mod Change
pub mod Scan
pub mod Store
