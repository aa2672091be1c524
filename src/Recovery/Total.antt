-- ===== src/Recovery/Total.antt =====
-- A recovery pass succeeds on the logs that the program writes.
use rdbms.Prelude.{
  ℕ, ◌+◌, ◌*◌, ◌<◌, ◌≡◌, refl, ap, ◌∙◌, arith, List, [], ◌∷◌, length, All, ==_refl, if◌then◌else◌,
  inl, inr, Bool-cases,
}
use rdbms.Core.{Lsn, ok}
use rdbms.Page.Format.{page_size, PageHeader, Page, header, validate, from_bytes}
use rdbms.Vfs.File.{VfsFile, FileLaws, NeverFails, max_offset}
use rdbms.Vfs.PageFile.{write_page_at}
use rdbms.Vfs.RoundTrip.{write_page_at_ok}
use rdbms.Wal.Format.{
  WalRecordKind, begin_tx, page_image, commit_tx, abort_tx, checkpoint, WalRecord,
}
use rdbms.Wal.Log.Reader.{read_all}
use rdbms.Wal.Winner.{is_winner, is_redone_lem}
use rdbms.Wal.Redo.{redo_record, redo_records, redo_committed_page_images}
use rdbms.Recovery.{PageFileRedo, redo_image, page_file_redo, recovery_pass, recover_page_file}

-- The image of a valid page with its own id, at an offset that a file can have.
abbrev pub IsImage : WalRecordKind → Type 0
IsImage (page_image tx_id page_id image) =
    (h : PageHeader) × (validate (record { bytes = image }) ≡ ok tt)
    × (header (record { bytes = image }) ≡ ok h)
    × (h.page_id ≡ page_id)
    × (page_id * page_size + length image < max_offset)
IsImage (begin_tx tx_id) = Unit
IsImage (commit_tx tx_id) = Unit
IsImage (abort_tx tx_id) = Unit
IsImage checkpoint = Unit

abbrev redone_of : List WalRecord → WalRecordKind → ℕ
redone_of all (page_image tx_id page_id image) = if is_winner all tx_id then 1 else 0
redone_of all (begin_tx tx_id) = 0
redone_of all (commit_tx tx_id) = 0
redone_of all (abort_tx tx_id) = 0
redone_of all checkpoint = 0

-- The number of images of a log that are replayed.
unfoldable pub count_redone : List WalRecord → List WalRecord → ℕ
count_redone all [] = 0
count_redone all (r ∷ records) = redone_of all r.kind + count_redone all records

module _ (vfs : VfsFile) (laws : FileLaws vfs) (healthy : NeverFails vfs laws) where
  open vfs use {File}

  redo_record_ok :
      (all : List WalRecord) (lsn : Lsn) (k : WalRecordKind) (s : PageFileRedo File)
      → IsImage k
      → ((redo_record (page_file_redo vfs) all lsn k s).0 ≡ ok tt)
        × ((redo_record (page_file_redo vfs) all lsn k s).1.redone_page_images
            ≡ s.redone_page_images + redone_of all k)
  unfolding redo_record redo_image from_bytes
  redo_record_ok all lsn (page_image tx_id page_id image) s (h, v, e, i, room) =
      let page : Page = record { bytes = image } in
      let wrote : (write_page_at vfs page_id page s.page_file).0 ≡ ok tt =
        ap (λ r. r.0) (write_page_at_ok vfs page_id page s.page_file h v e i (omega (arith, room)))
        ∙ healthy.writes (page_id * page_size) image s.page_file room in
      elim (Bool-cases (is_winner all tx_id)) [
        | inl y ↦ rw (is_redone_lem all tx_id, y, v, e, i, ==_refl page_id, wrote) (refl, refl)
        | inr y ↦ rw (is_redone_lem all tx_id, y) (refl, omega arith)
      ]
  redo_record_ok all lsn (begin_tx tx_id) s is = (refl, omega arith)
  redo_record_ok all lsn (commit_tx tx_id) s is = (refl, omega arith)
  redo_record_ok all lsn (abort_tx tx_id) s is = (refl, omega arith)
  redo_record_ok all lsn checkpoint s is = (refl, omega arith)

  redo_records_ok :
      (all records : List WalRecord) (s : PageFileRedo File)
      → All (λ r. IsImage r.kind) records
      → ((redo_records (page_file_redo vfs) all records s).0 ≡ ok tt)
        × ((redo_records (page_file_redo vfs) all records s).1.redone_page_images
            ≡ s.redone_page_images + count_redone all records)
  unfolding redo_records count_redone
  redo_records_ok all [] s is = (refl, omega arith)
  redo_records_ok all (r ∷ records) s is =
      let (one, n) = redo_record_ok all r.lsn r.kind s is.0 in
      let (rest, m) =
        redo_records_ok all records (redo_record (page_file_redo vfs) all r.lsn r.kind s).1 is.1 in
      rw one (rest, omega (arith, n, m))

  -- On a log whose images are valid pages with the ids that their records name, and a disk that does
  -- not fail, recovery succeeds, and reports the records that it read and the images that it replayed.
  pub recover_page_file_ok :
      (wal_file file : File) (records : List WalRecord)
      → read_all vfs wal_file ≡ ok records
      → All (λ r. IsImage r.kind) records
      → (recover_page_file vfs wal_file file).0
        ≡ ok (record {
          scanned_wal_records = length records;
          redone_page_images = count_redone records records;
        })
  unfolding recover_page_file recovery_pass redo_committed_page_images
  recover_page_file_ok wal_file file records log is =
      let (done, n) =
        redo_records_ok records records (record { page_file = file; redone_page_images = 0 }) is in
      let z : 0 + count_redone records records ≡ count_redone records records = omega arith in
      rw (log, done, healthy.syncs _, n, z) refl
