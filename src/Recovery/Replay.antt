-- ===== src/Recovery/Replay.antt =====
-- What replaying a log does to the pages of the data file.
use rdbms.Prelude.{
  ℕ, ◌+◌, ◌≡◌, refl, sym, arith, true, false, ◌&&◌, Option, none, some, List, [], ◌∷◌, length, All,
  ◌==◌, if◌then◌else◌, inl, inr, Bool-cases,
}
use rdbms.Core.{PageId, Lsn, ok}
use rdbms.Exec.{bind_inv}
use rdbms.Page.Format.{page_size, Page, from_bytes}
use rdbms.Vfs.File.{VfsFile, FileLaws, NeverFails}
use rdbms.Vfs.Read.{read_page}
use rdbms.Vfs.PageFile.{write_page_at}
use rdbms.Vfs.RoundTrip.{read_page-write_page_at_self, read_page-write_page_at_other}
use rdbms.Wal.Format.{
  WalRecordKind, begin_tx, page_image, commit_tx, abort_tx, checkpoint, WalRecord,
}
use rdbms.Wal.Codec.{IsKind, IsRecord}
use rdbms.Wal.Winner.{is_winner, is_redone_lem}
use rdbms.Wal.Redo.{redo_record, redo_records}
use rdbms.Recovery.{PageFileRedo, redo_image, page_file_redo}

-- The image of a page that a record replays, and the last one of a log.
unfoldable pub image_at : List WalRecord → WalRecordKind → PageId → Option (List ℕ)
image_at all (page_image tx_id page_id image) id =
    if is_winner all tx_id && (page_id == id) then some image else none
image_at all (begin_tx tx_id) id = none
image_at all (commit_tx tx_id) id = none
image_at all (abort_tx tx_id) id = none
image_at all checkpoint id = none

abbrev pub later : Option (List ℕ) → Option (List ℕ) → Option (List ℕ)
later first (some image) = some image
later first none = first

unfoldable pub last_image : List WalRecord → List WalRecord → PageId → Option (List ℕ)
last_image all [] id = none
last_image all (r ∷ records) id = later (image_at all r.kind id) (last_image all records id)

module _ (vfs : VfsFile) where
  open vfs use {File}

  -- The file g after a replay that started at f: a page reads as the image, or as before.
  abbrev pub IsReplayed : Option (List ℕ) → PageId → File → File → Type 0
  IsReplayed (some image) id f g = read_page vfs id g ≡ ok (record { bytes = image })
  IsReplayed none id f g = (p : Page) → read_page vfs id f ≡ ok p → read_page vfs id g ≡ ok p

  IsReplayed-later :
      (a b : Option (List ℕ)) (id : PageId) (f g k : File)
      → IsReplayed a id f g
      → IsReplayed b id g k
      → IsReplayed (later a b) id f k
  IsReplayed-later a (some image) id f g k x y = y
  IsReplayed-later (some image) none id f g k x y = y (record { bytes = image }) x
  IsReplayed-later none none id f g k x y = λ p h. y p (x p h)

  redo_record_inv :
      (all : List WalRecord) (lsn tx_id page_id : ℕ) (image : List ℕ) (s : PageFileRedo File)
      → (redo_record (page_file_redo vfs) all lsn (page_image tx_id page_id image) s).0 ≡ ok tt
      → is_winner all tx_id ≡ true
      → ((write_page_at vfs page_id (record { bytes = image }) s.page_file).0 ≡ ok tt)
        × (redo_record (page_file_redo vfs) all lsn (page_image tx_id page_id image) s ≡ (
          ok tt,
          record {
            page_file = (write_page_at vfs page_id (record { bytes = image }) s.page_file).1;
            redone_page_images = s.redone_page_images + 1;
          },
        ))
  unfolding redo_record redo_image from_bytes
  redo_record_inv all lsn tx_id page_id image s h y = ground (arith, is_redone_lem all tx_id)

  -- The image of a transaction that did not commit, or that was aborted, is passed over.
  redo_record_skip :
      (all : List WalRecord) (lsn tx_id page_id : ℕ) (image : List ℕ) (s : PageFileRedo File)
      → is_winner all tx_id ≡ false
      → redo_record (page_file_redo vfs) all lsn (page_image tx_id page_id image) s ≡ (ok tt, s)
  unfolding redo_record
  redo_record_skip all lsn tx_id page_id image s y = rw (is_redone_lem all tx_id, y) refl

module _ (vfs : VfsFile) (laws : FileLaws vfs) (healthy : NeverFails vfs laws) where
  open vfs use {File}

  redo_image-IsReplayed :
      (page_id id : PageId) (image : List ℕ) (f : File)
      → length image ≡ page_size
      → (write_page_at vfs page_id (record { bytes = image }) f).0 ≡ ok tt
      → IsReplayed vfs
          (if page_id == id then some image else none)
          id
          f
          (write_page_at vfs page_id (record { bytes = image }) f).1
  redo_image-IsReplayed page_id id image f sized h = elim (Bool-cases (page_id == id)) [
    | inl y ↦
        let same : page_id ≡ id = ground (arith, y) in
        rw (y, sym same)
          (read_page-write_page_at_self vfs laws healthy page_id (record { bytes = image }) f sized
            h)
    | inr y ↦ rw y (λ q old.
        read_page-write_page_at_other vfs laws healthy page_id id (record { bytes = image }) q f
          (λ e. ground (arith, y, e)) sized h old)
  ]

  redo_record-IsReplayed :
      (all : List WalRecord) (lsn : Lsn) (k : WalRecordKind) (id : PageId) (s : PageFileRedo File)
      → IsKind k
      → (redo_record (page_file_redo vfs) all lsn k s).0 ≡ ok tt
      → IsReplayed vfs
          (image_at all k id)
          id
          s.page_file
          (redo_record (page_file_redo vfs) all lsn k s).1.page_file
  unfolding image_at
  redo_record-IsReplayed all lsn (page_image tx_id page_id image) id s is h =
      elim (Bool-cases (is_winner all tx_id)) [
        | inl y ↦
            let (wrote, run) = redo_record_inv vfs all lsn tx_id page_id image s h y in
            rw (run, y) (redo_image-IsReplayed page_id id image s.page_file is.2 wrote)
        | inr y ↦ rw (y, redo_record_skip vfs all lsn tx_id page_id image s y) (λ p old. old)
      ]
  redo_record-IsReplayed all lsn (begin_tx tx_id) id s is h = unfold redo_record in λ p old. old
  redo_record-IsReplayed all lsn (commit_tx tx_id) id s is h = unfold redo_record in λ p old. old
  redo_record-IsReplayed all lsn (abort_tx tx_id) id s is h = unfold redo_record in λ p old. old
  redo_record-IsReplayed all lsn checkpoint id s is h = unfold redo_record in λ p old. old

  -- The whole loop.
  pub redo_records-IsReplayed :
      (all records : List WalRecord) (id : PageId) (s : PageFileRedo File)
      → All IsRecord records
      → (redo_records (page_file_redo vfs) all records s).0 ≡ ok tt
      → IsReplayed vfs
          (last_image all records id)
          id
          s.page_file
          (redo_records (page_file_redo vfs) all records s).1.page_file
  unfolding redo_records last_image
  redo_records-IsReplayed all [] id s is h = λ p old. old
  redo_records-IsReplayed all (r ∷ records) id s is h =
      let one = redo_record (page_file_redo vfs) all r.lsn r.kind in
      let (x, first, rest) =
        bind_inv one (λ _. redo_records (page_file_redo vfs) all records) s tt h in
      rw rest (
        IsReplayed-later vfs (image_at all r.kind id) (last_image all records id) id s.page_file
          (one s).1.page_file _ (redo_record-IsReplayed all r.lsn r.kind id s is.0.1 first)
          (redo_records-IsReplayed all records id (one s).1 is.1 (rw rest at h)))
