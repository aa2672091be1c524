-- ===== src/Index.antt =====
-- crates/rdbms_index/src/lib.rs: the B+tree.
pub mod Format
pub mod Codec
pub mod RoundTrip
pub mod Size
pub mod Order
pub mod Tree
pub mod Forest
pub mod Every
pub mod Ordered
pub mod Inserted
pub mod Fresh
pub mod Halves
pub mod Chosen
pub mod Narrow
pub mod Leftmost
pub mod Stored
pub mod Steps
pub mod Cut
pub mod Inner
pub mod Refines
pub mod Sound
pub mod Insert
pub mod Leaves
pub mod Scan
pub mod Walk
pub mod Lookup
pub mod Root
pub mod Contract
