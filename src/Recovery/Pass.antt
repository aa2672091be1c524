-- ===== src/Recovery/Pass.antt =====
-- What a recovery pass that succeeds leaves in the data file.
use rdbms.Prelude.{ℕ, ◌≡◌, refl, sym, ◌∙◌, arith, Option, none, some, List, length, All}
use rdbms.Core.{PageId, DbResult, ok, err, DbError}
use rdbms.Page.Format.{Page}
use rdbms.Vfs.File.{VfsFile, FileLaws, NeverFails}
use rdbms.Vfs.Read.{read_page}
use rdbms.Vfs.RoundTrip.{read_page-content}
use rdbms.Wal.Format.{WalRecord}
use rdbms.Wal.Codec.{IsRecord}
use rdbms.Wal.Log.Reader.{read_all}
use rdbms.Wal.Redo.{redo_records, redo_committed_page_images}
use rdbms.Recovery.{RecoveryReport, PageFileRedo, page_file_redo, recovery_pass, recover_page_file}
use rdbms.Recovery.Replay.{last_image, IsReplayed, redo_records-IsReplayed}

module _ (vfs : VfsFile) where
  open vfs use {File}

  -- A log that cannot be read stops the pass before it touches the data file.
  pub recover_page_file-unreadable :
      (wal_file file : File) (e : DbError)
      → read_all vfs wal_file ≡ err e
      → recover_page_file vfs wal_file file ≡ (err e, file)
  unfolding recover_page_file recovery_pass
  recover_page_file-unreadable wal_file file e h = rw h refl

  module _ (wal_file file : File) (records : List WalRecord) (report : RecoveryReport)
      (log : read_all vfs wal_file ≡ ok records)
      (h : (recover_page_file vfs wal_file file).0 ≡ ok report) where
    start : PageFileRedo File
    start = record { page_file = file; redone_page_images = 0 }

    replayed : DbResult (Unit {0}) × PageFileRedo File
    replayed = redo_records (page_file_redo vfs) records records start

    recover_page_file_inv :
        (replayed.0 ≡ ok tt)
        × (report.scanned_wal_records ≡ length records)
        × (report.redone_page_images ≡ replayed.1.redone_page_images)
        × ((recover_page_file vfs wal_file file).1 ≡ (vfs.sync_data replayed.1.page_file).1)
    unfolding recover_page_file recovery_pass redo_committed_page_images start replayed
    recover_page_file_inv = ground arith

module _ (vfs : VfsFile) (laws : FileLaws vfs) (healthy : NeverFails vfs laws) where
  open vfs use {File}
  open laws use {content, sync_keeps}

  IsReplayed-synced :
      (a : Option (List ℕ)) (id : PageId) (f g : File)
      → IsReplayed vfs a id f g
      → IsReplayed vfs a id f (vfs.sync_data g).1
  IsReplayed-synced none id f g x = λ p old.
      read_page-content vfs laws healthy id p g (vfs.sync_data g).1 (sync_keeps g) (x p old)
  IsReplayed-synced (some image) id f g x =
      read_page-content vfs laws healthy id (record { bytes = image }) g (vfs.sync_data g).1
        (sync_keeps g) x

  IsReplayed-stable :
      (a : Option (List ℕ)) (id : PageId) (f g k : File) (p : Page)
      → IsReplayed vfs a id f g
      → IsReplayed vfs a id g k
      → read_page vfs id g ≡ ok p
      → read_page vfs id k ≡ ok p
  IsReplayed-stable none id f g k p once again old = again p old
  IsReplayed-stable (some image) id f g k p once again old = again ∙ sym once ∙ old

  -- After a recovery that succeeds, a page of which the log has images of transactions that committed
  -- and did not abort reads as the last of them, and any other page that could be read reads as before;
  -- the report counts the records of the log. The log holds records of 64-bit ids and page-sized
  -- images, and the disk does not fail.
  pub recover_page_file-latest :
      (wal_file file : File) (records : List WalRecord) (report : RecoveryReport)
      → read_all vfs wal_file ≡ ok records
      → All IsRecord records
      → (recover_page_file vfs wal_file file).0 ≡ ok report
      → (report.scanned_wal_records ≡ length records)
        × ((id : PageId)
            → IsReplayed vfs
                (last_image records records id)
                id
                file
                (recover_page_file vfs wal_file file).1)
  unfolding redo_records replayed start
  recover_page_file-latest wal_file file records report log is h =
      let (done, scanned, redone, after) =
        recover_page_file_inv vfs wal_file file records report log h in
      (
        scanned,
        λ id. rw after (
            IsReplayed-synced (last_image records records id) id file _ (
              redo_records-IsReplayed vfs laws healthy records records id
                (record { page_file = file; redone_page_images = 0 }) is done)),
      )

  -- On a disk that does not fail, where a pass and the same pass over the recovered file succeed, every
  -- page that can be read after the first reads the same after the second.
  pub recover_page_file-twice :
      (wal_file file : File) (records : List WalRecord) (first second : RecoveryReport)
      → read_all vfs wal_file ≡ ok records
      → All IsRecord records
      → (recover_page_file vfs wal_file file).0 ≡ ok first
      → (recover_page_file vfs wal_file (recover_page_file vfs wal_file file).1).0 ≡ ok second
      → (id : PageId) (p : Page) → read_page vfs id (recover_page_file vfs wal_file file).1 ≡ ok p
      → read_page vfs id (recover_page_file vfs wal_file (recover_page_file vfs wal_file file).1).1
        ≡ ok p
  recover_page_file-twice wal_file file records first second log is h1 h2 id p old =
      let once = (recover_page_file-latest wal_file file records first log is h1).1 id in
      let again =
        (recover_page_file-latest wal_file (recover_page_file vfs wal_file file).1 records second
            log is h2).1
          id in
      IsReplayed-stable (last_image records records id) id file
        (recover_page_file vfs wal_file file).1 _ p once again old
