-- ===== src/Lib.antt =====
-- A model of the storage engine of RDBMS, with its proofs. Every type and function below is a
-- translation of Rust code in `crates/`; the names are the source's, in snake case.
--
-- How the parts fit together:
--   crates/rdbms_core       Core: identifiers and errors.
--   crates/rdbms_page       Page: the slotted page of 4096 bytes. Page/Format has the layout and the
--                           methods on `&self`, Page/Ops those on `&mut self`; Page/Shape says what
--                           `validate` accepts, and New, Insert, Delete, Compact and Packed prove.
--   crates/rdbms_vfs        Vfs: the trait `VfsFile` as an interface (Vfs/File), and `PageFile` over
--                           it (Vfs/Read, Vfs/PageFile). Pages stand at `page_id * PAGE_SIZE`.
--                           Vfs/RoundTrip proves; Vfs/Memory is a file in memory, for the tests.
--   crates/rdbms_wal        Wal: Wal/Format has the records and their envelope, Wal/Log the writer and
--                           the reader over a `VfsFile`, Wal/Redo the replay of committed images.
--                           Wal/Codec, Wal/Log/Read, Append and Torn prove; Wal/Log/Layout is the
--                           log as the bytes of its records, Wal/Winner the transactions that count.
--   crates/rdbms_recovery   Recovery: the pass that reads the log, writes the images through the page
--                           file and syncs it. Recovery/Replay, Pass, Total, Images and Durable prove.
--   crates/rdbms_catalog    Catalog: Catalog/Format has the data, Catalog/Encode the codec of its record
--                           over Codec (the decode cursor), Catalog/Meta and Change the methods of
--                           `Catalog`, Catalog/Scan and Store those of `CatalogStore`, with the catalog
--                           in page 0. Catalog/RoundTrip, Saved, Consistent, Keeps, Changed, Evolve,
--                           Reachable and Found prove.
--   crates/rdbms_tx         Tx: Tx/Pages is the map of staged pages, Tx/State the life of a transaction
--                           (begin, commit, rollback, drop), Tx/Work what it stages and the methods
--                           that do it in a transaction of their own, Tx/Open the opening. Tx/Sorted, Stages,
--                           IndexStages, Isolation, Failed, Log, Images and Durable prove.
--   crates/rdbms_extension  Extension: Extension/Registry the registry and what reads it, Extension/Load
--   crates/rdbms_ext_abi    what loads into it, Extension/Stdlib the built-in functions. Extension/Functions,
--                           Guarded and Kept prove.
--   crates/rdbms_index      Index: Index/Format has the keys and nodes, Index/Codec their bytes, Index/Tree
--                           `insert` and `lookup` over a page store, Tx/Index the stores of the
--                           transactions and what they do with indexes. Index/Forest is the tree that the
--                           pages stand for; Index/Stored says what is asked of a page store and when
--                           pages are those of a tree, Index/Root and Index/Contract what an index promises.
--                           The other children of Index prove: Order, RoundTrip, Size, Every, Ordered,
--                           Inserted, Fresh, Halves, Chosen, Narrow, Leftmost, Steps, Cut, Inner, Refines,
--                           Sound, Insert, Leaves, Scan, Walk and Lookup.
-- A transaction logs its images and its commit marker in the WAL before it writes the pages; recovery
-- replays that log. Prelude, Bytes and Exec carry what they share: lists, little-endian integers and slices, and
-- actions on `&mut self`.
--
-- How the code is read: a byte buffer is a list of numbers, and `read_u16`, `read_u32`, `read_u64`
-- (and the writers) are `read_le` and `write_le` at 2, 4 and 8. `usize` has 64 bits. A `DbResult` is
-- a value, an error kind, or a panic; messages are left out, since no code looks at them. A method on
-- `&mut self` is an `Exec`: it returns its result with the new state, also beside an error. A loop
-- `for i in 0..n` recurs on the rounds left.
--
-- Fuel: `read_all` gets the length of the file as fuel. A round reads a record of at least 40 bytes,
-- so the rounds end first; on an empty fuel the model panics, which the code never does. The recursion of
-- `insert_recursive` and the loops of `find_leaf` and `lookup` have no bound in the code, which runs on
-- where a damaged page is its own child or successor. On an index, as many steps as it has pages are
-- enough.
--
-- `String::from_utf8` is a parameter, the test `is_utf8`; a `String` is its bytes. A `BTreeMap` is its
-- pairs in the order of the keys, or in any order where none is observed. An `f64` is its bits.
--
-- Not modelled: the operating system's files behind `std::fs` (an interface with its laws as
-- hypotheses), the accessors that only return a field, the reservation of memory for a decoded list,
-- the C structs of rdbms_ext_abi, and the crates rdbms_sql, rdbms_android and rdbms_cli.
pub mod Bytes
pub mod Catalog
pub mod Codec
pub mod Core
pub mod Exec
pub mod Extension
pub mod Index
pub mod Page
pub mod Prelude
pub mod Recovery
pub mod Tx
pub mod Vfs
pub mod Wal
