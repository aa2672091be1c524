-- ===== src/Page.antt =====
-- crates/rdbms_page/src/lib.rs: the fixed-size slotted page. `Format` has the byte layout and the
-- reading half, `Ops` the methods on `&mut self`; the other children prove.
pub mod Format
pub mod Ops
pub mod Shape
pub mod Frame
pub mod SlotWrite
pub mod Lookup
pub mod New
pub mod Insert
pub mod Delete
pub mod Compact
pub mod Packed
mod Runs
