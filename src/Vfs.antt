-- ===== src/Vfs.antt =====
-- crates/rdbms_vfs/src/lib.rs: the trait `VfsFile` as an interface, with what its documentation says
-- of the file's bytes, and the page file over it. `PageFile` is the struct around such a file.
pub mod Overlay
pub mod File
pub mod Read
pub mod PageFile
pub mod RoundTrip
pub mod Memory
mod Runs
