-- ===== src/Tx/Open.antt =====
-- Opening a store and forcing its files to disk, crates/rdbms_tx/src/lib.rs.
use rdbms.Prelude.{ℕ, Bool, List}
use rdbms.Core.{DbResult, ok, ◌>>=◌}
use rdbms.Exec.{Exec}
use rdbms.Exec
use rdbms.Vfs.File.{VfsFile}
use rdbms.Wal.Log.Writer.{open_writer, sync_wal}
use rdbms.Catalog.Store.{load_or_bootstrap}
use rdbms.Tx.State.{TransactionalStore, new_store, on_wal, on_data}

module _ (vfs : VfsFile) where
  open vfs use {File, sync_data}

  -- The two results are those of `vfs.open_database` on the two paths.
  unfoldable pub open_transactional_store :
      (List ℕ → Bool) → DbResult File → DbResult File → DbResult (TransactionalStore File)
  open_transactional_store is_utf8 data_file wal_file = data_file >>= λ file.
      (load_or_bootstrap vfs is_utf8 file).0 >>= λ catalog. wal_file >>= λ log.
      open_writer vfs log >>= λ wal. ok (
        new_store (record { page_file = (load_or_bootstrap vfs is_utf8 file).1; catalog = catalog })
          wal)

  unfoldable pub sync_store : Exec (TransactionalStore File) (Unit {0})
  sync_store = Exec.◌>>◌ (on_data sync_data) (on_wal (sync_wal vfs))
