-- ===== src/Wal.antt =====
-- crates/rdbms_wal/src/lib.rs: the write-ahead log. `Format` has the records and their bytes, `Log`
-- the writer and the reader, `Redo` the replay of committed page images; the others prove.
pub mod Format
pub mod Log
pub mod Codec
pub mod Redo
pub mod Winner
mod Runs
