-- ===== src/Recovery/Durable.antt =====
-- From the appends of a session to the pages that a recovery restores.
use rdbms.Prelude.{ℕ, ◌+◌, ◌<◌, ◌≡◌, arith, List, [], ◌∷◌, length, All}
use rdbms.Core.{PageId, ok}
use rdbms.Vfs.File.{VfsFile, FileLaws, NeverFails, max_offset}
use rdbms.Wal.Format.{WalRecordKind}
use rdbms.Wal.Codec.{IsKind}
use rdbms.Wal.Log.Writer.{WalWriter, open_writer}
use rdbms.Wal.Log.Layout.{record_len, stamped, log_len, stamped-IsRecord}
use rdbms.Wal.Log.Append.{append_all, read_all-append_all}
use rdbms.Recovery.{recover_page_file}
use rdbms.Recovery.Replay.{last_image, IsReplayed}
use rdbms.Recovery.Pass.{recover_page_file-latest}
use rdbms.Recovery.Total.{IsImage, count_redone, recover_page_file_ok}

pub stamped-IsImage :
    (ks : List WalRecordKind) (off : ℕ)
    → All IsImage ks
    → All (λ r. IsImage r.kind) (stamped off ks)
unfolding stamped
stamped-IsImage [] off h = tt
stamped-IsImage (k ∷ ks) off h = (h.0, stamped-IsImage ks (off + record_len k) h.1)

module _ (vfs : VfsFile) (laws : FileLaws vfs) (healthy : NeverFails vfs laws) where
  open vfs use {File}

  -- Records of 64-bit ids, with images of valid pages at their own ids, are appended to an empty log
  -- below the largest offset. Then recovery over any data file succeeds: it reports every record and
  -- every replayed image, each page with images of transactions that committed and did not abort
  -- reads as the last of them, and any other page that could be read reads as before.
  pub recover_page_file-append_all :
      (wal_file file : File) (ks : List WalRecordKind)
      → laws.content wal_file ≡ []
      → All IsKind ks
      → All IsImage ks
      → log_len ks < max_offset
      → (w : WalWriter File) × (open_writer vfs wal_file ≡ ok w)
        × ((recover_page_file vfs (append_all vfs ks w).1.file file).0
            ≡ ok (record {
              scanned_wal_records = length (stamped 0 ks);
              redone_page_images = count_redone (stamped 0 ks) (stamped 0 ks);
            }))
        × ((id : PageId)
            → IsReplayed vfs
                (last_image (stamped 0 ks) (stamped 0 ks) id)
                id
                file
                (recover_page_file vfs (append_all vfs ks w).1.file file).1)
  recover_page_file-append_all wal_file file ks empty kinds images room =
      let (w, opened, lsns, log) =
        read_all-append_all vfs laws healthy wal_file ks empty kinds room in
      let wal = (append_all vfs ks w).1.file in
      let done =
        recover_page_file_ok vfs laws healthy wal file (stamped 0 ks) log
          (stamped-IsImage ks 0 images) in
      (
        w,
        opened,
        done,
        (recover_page_file-latest vfs laws healthy wal file (stamped 0 ks) _ log
            (stamped-IsRecord ks 0 kinds (omega (arith, room))) done).1,
      )
