-- ===== src/Tx/Durable.antt =====
-- What recovery makes of the log of a transaction, with and without its commit marker: `commit` of
-- crates/rdbms_tx/src/lib.rs.
use mathlib.Core.Path.{fun_ext}
use rdbms.Prelude.{
  ℕ, ◌+◌, ◌^◌, ◌<◌, ◌≡◌, refl, arith, true, false, Option, List, ◌++◌, take, All, All-append,
  All-take,
}
use rdbms.Core.{PageId, ok}
use rdbms.Vfs.File.{VfsFile, FileLaws, NeverFails, max_offset}
use rdbms.Wal.Format.{WalRecordKind}
use rdbms.Wal.Winner.{is_abort_of}
use rdbms.Wal.Log.Writer.{WalWriter}
use rdbms.Wal.Log.Layout.{log_len, log_len-append, stamped, stamped-IsRecord}
use rdbms.Wal.Log.Append.{IsLog}
use rdbms.Wal.Log.Read.{read_all-log_bytes}
use rdbms.Recovery.{RecoveryReport, recover_page_file}
use rdbms.Recovery.Latest.{any_of, wins}
use rdbms.Recovery.Replay.{later, last_image, IsReplayed}
use rdbms.Recovery.Pass.{recover_page_file-latest}
use rdbms.Recovery.Total.{IsImage, recover_page_file_ok}
use rdbms.Recovery.Durable.{stamped-IsImage}
use rdbms.Tx.Pages.{get_page, values}
use rdbms.Tx.Sorted.{IsSorted, take-IsSorted}
use rdbms.Tx.State.{active, Transaction, commit, log_pages}
use rdbms.Tx.Log.{IsStaged, images, images-IsImage, committed_log, log_pages_ok, commit_ok}
use rdbms.Tx.Images.{
  bytes_of, is_use_of, last_image_committed, last_image_uncommitted, last_image_unmarked,
  last_image_reused,
}

module _ (vfs : VfsFile) (laws : FileLaws vfs) (healthy : NeverFails vfs laws) where
  open vfs use {File}

  -- Recovery of a log file over a data file ends well, and each page is then as some images say.
  abbrev pub Restores : File → File → (PageId → Option (List ℕ)) → Type 0
  Restores wal_file file restored =
      (report : RecoveryReport) × ((recover_page_file vfs wal_file file).0 ≡ ok report)
      × ((id : PageId)
          → IsReplayed vfs (restored id) id file (recover_page_file vfs wal_file file).1)

  -- A log of valid images restores the last ones.
  log-Restores :
      (w : WalWriter File) (ks : List WalRecordKind) (file : File)
      → IsLog vfs laws w ks
      → All IsImage ks
      → log_len ks < max_offset
      → Restores w.file file (last_image (stamped 0 ks) (stamped 0 ks))
  log-Restores w ks file (kinds, bytes, next) images room =
      let log = read_all-log_bytes vfs laws healthy w.file ks kinds bytes room in
      let done =
        recover_page_file_ok vfs laws healthy w.file file (stamped 0 ks) log
          (stamped-IsImage ks 0 images) in
      (
        _,
        done,
        (recover_page_file-latest vfs laws healthy w.file file (stamped 0 ks) _ log
            (stamped-IsRecord ks 0 kinds (omega (arith, room))) done).1,
      )

  committed-IsImage :
      (t : Transaction File) (ks : List WalRecordKind)
      → t.tx_id < 2 ^ 64
      → All IsStaged t.dirty_pages
      → All IsImage ks
      → All IsImage (ks ++ committed_log t.tx_id t.dirty_pages)
  committed-IsImage t ks small staged h = All-append IsImage ks _ h (
      All-append IsImage (images t.tx_id t.dirty_pages) _
        (images-IsImage t.tx_id t.dirty_pages small staged).1 (tt, tt))

  -- On a disk that does not fail, an active transaction with a 64-bit id that no image and no abort of
  -- the log has, with staged pages that are well formed, under their own ids and in the order of a map,
  -- and with room in the log, commits: the catalog is the working one, and recovery of the log that
  -- `commit` leaves, over any data file, succeeds with each staged page as it was staged, and any other
  -- page as the log before the transaction has it.
  pub commit-durable :
      (t : Transaction File) (ks : List WalRecordKind) (file : File)
      → t.state ≡ active
      → t.tx_id < 2 ^ 64
      → All IsStaged t.dirty_pages
      → IsSorted t.dirty_pages
      → IsLog vfs laws t.manager.wal ks
      → All IsImage ks
      → any_of (is_use_of t.tx_id) ks ≡ false
      → log_len ks + log_len (committed_log t.tx_id t.dirty_pages) < max_offset
      → ((commit vfs t).0 ≡ ok tt)
        × ((commit vfs t).1.store.catalog ≡ t.working_catalog)
        × Restores (commit vfs t).1.wal.file file (λ id.
          later
            (last_image (stamped 0 ks) (stamped 0 ks) id)
            (bytes_of (get_page id t.dirty_pages)))
  commit-durable t ks file is_active small staged sorted log valid fresh room =
      let (done, after, catalog) =
        commit_ok vfs laws healthy t ks is_active small staged log room in
      let ms = committed_log t.tx_id t.dirty_pages in
      let restored =
        log-Restores (commit vfs t).1.wal (ks ++ ms) file after
          (committed-IsImage t ks small staged valid) (omega (arith, room, log_len-append ks ms)) in
      let same = fun_ext (λ id. last_image_committed ks t.tx_id t.dirty_pages id sorted fresh) in
      (done, catalog, rw same at restored)

  -- The log after the first n rounds of the loop of `commit` over the staged pages.
  crash_log :
      (t : Transaction File) (ks : List WalRecordKind) (n : ℕ) (file : File)
      → t.tx_id < 2 ^ 64
      → All IsStaged t.dirty_pages
      → IsLog vfs laws t.manager.wal ks
      → All IsImage ks
      → log_len ks + log_len (images t.tx_id (take n t.dirty_pages)) < max_offset
      → ((log_pages vfs t.tx_id (values (take n t.dirty_pages)) t.manager).0 ≡ ok tt)
        × Restores
            (log_pages vfs t.tx_id (values (take n t.dirty_pages)) t.manager).1.wal.file
            file
            (λ id.
              let log = stamped 0 (ks ++ images t.tx_id (take n t.dirty_pages)) in
              last_image log log id)
  crash_log t ks n file small staged log valid room =
      let pages = take n t.dirty_pages in
      let some_staged = All-take IsStaged n t.dirty_pages staged in
      let (w, run, after) =
        log_pages_ok vfs laws healthy t.tx_id pages t.manager ks small some_staged log room in
      let restored =
        log-Restores w (ks ++ images t.tx_id pages) file after
          (All-append IsImage ks _ valid (images-IsImage t.tx_id pages small some_staged).1)
          (omega (arith, room, log_len-append ks (images t.tx_id pages))) in
      rw run (refl, restored)

  -- On a disk that does not fail, a crash after any number of rounds of the loop in which `commit` logs
  -- the images of its staged pages, before the commit marker, where the log before has no commit marker
  -- under the id of the transaction or has an abort under it: recovery over any data file succeeds, and
  -- every page is as the log before the transaction has it. The staged pages are well formed and under
  -- their own ids, the id has 64 bits, and the log has room for the images.
  pub log_pages-atomic :
      (t : Transaction File) (ks : List WalRecordKind) (n : ℕ) (file : File)
      → t.tx_id < 2 ^ 64
      → All IsStaged t.dirty_pages
      → IsLog vfs laws t.manager.wal ks
      → All IsImage ks
      → wins ks t.tx_id ≡ false
      → log_len ks + log_len (images t.tx_id (take n t.dirty_pages)) < max_offset
      → ((log_pages vfs t.tx_id (values (take n t.dirty_pages)) t.manager).0 ≡ ok tt)
        × Restores
            (log_pages vfs t.tx_id (values (take n t.dirty_pages)) t.manager).1.wal.file
            file
            (last_image (stamped 0 ks) (stamped 0 ks))
  log_pages-atomic t ks n file small staged log valid lost room =
      let (run, restored) = crash_log t ks n file small staged log valid room in
      let same = fun_ext (λ id. last_image_uncommitted ks t.tx_id (take n t.dirty_pages) id lost) in
      (run, rw same at restored)

  -- On a disk that does not fail, a crash after any number of rounds of the loop in which `commit` logs
  -- the images of its staged pages, before the commit marker, where the log before has a commit marker
  -- and no abort under the id of the transaction, as happens when ids start again in a log that is kept:
  -- recovery over any data file succeeds and restores each page whose image was logged to what was
  -- staged, although the transaction has not committed, and any other page as the log before has it.
  -- The staged pages are well formed, under their own ids and in the order of a map, the id has 64 bits,
  -- and the log has room for the images.
  pub log_pages-reused_id :
      (t : Transaction File) (ks : List WalRecordKind) (n : ℕ) (file : File)
      → t.tx_id < 2 ^ 64
      → All IsStaged t.dirty_pages
      → IsSorted t.dirty_pages
      → IsLog vfs laws t.manager.wal ks
      → All IsImage ks
      → wins ks t.tx_id ≡ true
      → log_len ks + log_len (images t.tx_id (take n t.dirty_pages)) < max_offset
      → ((log_pages vfs t.tx_id (values (take n t.dirty_pages)) t.manager).0 ≡ ok tt)
        × Restores
            (log_pages vfs t.tx_id (values (take n t.dirty_pages)) t.manager).1.wal.file
            file
            (λ id.
              later
                (last_image (stamped 0 ks) (stamped 0 ks) id)
                (bytes_of (get_page id (take n t.dirty_pages))))
  log_pages-reused_id t ks n file small staged sorted log valid won room =
      let (run, restored) = crash_log t ks n file small staged log valid room in
      let in_order = take-IsSorted n t.dirty_pages sorted in
      let same =
        fun_ext (λ id. last_image_unmarked ks t.tx_id (take n t.dirty_pages) id in_order won) in
      (run, rw same at restored)

  -- On a disk that does not fail, an active transaction whose id the log has aborted before, as
  -- happens when ids start again in a log that is kept, commits with success (staged pages well formed
  -- and under their own ids, a 64-bit id, room in the log), and yet recovery over any data file restores
  -- every page that the log had images of before to its earlier image, and none of the staged ones.
  pub commit-reused_id :
      (t : Transaction File) (ks : List WalRecordKind) (file : File)
      → t.state ≡ active
      → t.tx_id < 2 ^ 64
      → All IsStaged t.dirty_pages
      → IsLog vfs laws t.manager.wal ks
      → All IsImage ks
      → any_of (is_abort_of t.tx_id) ks ≡ true
      → log_len ks + log_len (committed_log t.tx_id t.dirty_pages) < max_offset
      → ((commit vfs t).0 ≡ ok tt)
        × Restores (commit vfs t).1.wal.file file (last_image (stamped 0 ks) (stamped 0 ks))
  commit-reused_id t ks file is_active small staged log valid aborted room =
      let (done, after, catalog) =
        commit_ok vfs laws healthy t ks is_active small staged log room in
      let ms = committed_log t.tx_id t.dirty_pages in
      let restored =
        log-Restores (commit vfs t).1.wal (ks ++ ms) file after
          (committed-IsImage t ks small staged valid) (omega (arith, room, log_len-append ks ms)) in
      let same = fun_ext (λ id. last_image_reused ks t.tx_id t.dirty_pages id aborted) in
      (done, rw same at restored)
