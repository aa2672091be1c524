-- ===== src/Recovery.antt =====
-- crates/rdbms_recovery/src/lib.rs: the recovery pass over an opened page file and WAL file.
pub mod Replay
pub mod Pass
pub mod Latest
pub mod Total
pub mod Images
pub mod Durable
mod Runs
use rdbms.Prelude.{ℕ, ◌+◌, List, length}
use rdbms.Core.{PageId, TxId, Lsn, DbResult, ok, err, panicked}
use rdbms.Exec.{Exec, pure, lift, gets, modify, ◌>>=◌, ◌>>◌}
use rdbms.Page.Format.{from_bytes}
use rdbms.Vfs.File.{VfsFile}
use rdbms.Vfs.PageFile.{write_page_at}
use rdbms.Wal.Log.Reader.{read_all}
use rdbms.Wal.Redo.{PageImageRedo, redo_committed_page_images}

pub record RecoveryReport : Type 0 where
  pub scanned_wal_records : ℕ
  pub redone_page_images : ℕ

pub record PageFileRedo (F : Type 0) : Type 0 where
  pub page_file : F
  pub redone_page_images : ℕ

module _ {F A : Type 0} where
  abbrev pub on_page_file : Exec F A → Exec (PageFileRedo F) A
  on_page_file m s = ((m s.page_file).0, record s { page_file = (m s.page_file).1 })

module _ {F : Type 0} where
  abbrev pub count_image : PageFileRedo F → PageFileRedo F
  count_image s = record s { redone_page_images = s.redone_page_images + 1 }

module _ (vfs : VfsFile) where
  open vfs use {File, sync_data}

  unfoldable pub redo_image : Lsn → TxId → PageId → List ℕ → Exec (PageFileRedo File) (Unit {0})
  redo_image lsn tx_id page_id image = do
    page ← lift (from_bytes image)
    on_page_file (write_page_at vfs page_id page)
    modify count_image

  abbrev pub page_file_redo : PageImageRedo
  page_file_redo = record { Sink = PageFileRedo File; redo_page_image = redo_image }

  unfoldable pub recovery_pass : File → Exec (PageFileRedo File) RecoveryReport
  recovery_pass wal_file = do
    records ← lift (read_all vfs wal_file)
    redo_committed_page_images page_file_redo records
    on_page_file sync_data
    gets (λ s. ok (record {
      scanned_wal_records = length records;
      redone_page_images = s.redone_page_images;
    }))

  -- From the log file; the state is the data file, which keeps what was written before an error. The
  -- handle that the source returns is the report beside the file.
  unfoldable pub recover_page_file : File → Exec File RecoveryReport
  recover_page_file wal_file file =
      let done = recovery_pass wal_file (record { page_file = file; redone_page_images = 0 }) in
      (done.0, done.1.page_file)
