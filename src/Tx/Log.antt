-- ===== src/Tx/Log.antt =====
-- What `commit` writes to the log and to the data file on a disk that does not fail.
use mathlib.Core.List.{append_assoc, append-nil}
use rdbms.Prelude.{
  true, lt→ltb, false, ◌+◌, ◌*◌, ◌^◌, ◌<◌, ◌≡◌, refl, ◌∙◌, arith, List, [], ◌∷◌, ◌++◌, All,
}
use rdbms.Core.{PageId, TxId, ok}
use rdbms.Page.Format.{page_size, PageType, Page}
use rdbms.Page.Shape.{page_id, IsWellFormed}
use rdbms.Vfs.File.{VfsFile, FileLaws, NeverFails, max_offset}
use rdbms.Vfs.PageFile.{write_page}
use rdbms.Vfs.RoundTrip.{write_page_ok}
use rdbms.Wal.Format.{WalRecordKind, page_image, commit_tx, begin_tx, image_of_page}
use rdbms.Wal.Codec.{IsKind}
use rdbms.Wal.Log.Writer.{WalWriter, append, sync_wal}
use rdbms.Wal.Log.Layout.{record_len, log_len, log_len-append}
use rdbms.Wal.Log.Append.{IsLog, append-IsLog}
use rdbms.Recovery.Images.{image_of_page-IsImage}
use rdbms.Recovery.Total.{IsImage}
use rdbms.Tx.Pages.{DirtyPages, values}
use rdbms.Tx.State.{
  begin, allocate_tx_id, active, Transaction, TransactionalStore, ensure_active, on_data, log_pages,
  write_pages, commit_body, commit, dropped,
}

-- A staged page: well formed, under its own id, below the largest offset.
pub record IsStaged (e : PageId × Page) : Type 0 where
  pub type : PageType
  pub well : IsWellFormed e.1 type
  pub named : page_id e.1 ≡ e.0
  pub room : e.0 * page_size + page_size < max_offset

-- The images of staged pages.
unfoldable pub images : TxId → DirtyPages → List WalRecordKind
images tx_id [] = []
images tx_id ((id, page) ∷ pages) = page_image tx_id id page.bytes ∷ images tx_id pages

-- The log of a transaction that commits.
abbrev pub committed_log : TxId → DirtyPages → List WalRecordKind
committed_log tx_id pages = images tx_id pages ++ (commit_tx tx_id ∷ [])

image_lem :
    (tx_id : TxId) (e : PageId × Page)
    → tx_id < 2 ^ 64
    → IsStaged e
    → (image_of_page tx_id e.1 ≡ ok (page_image tx_id e.0 e.1.bytes))
      × IsKind (page_image tx_id e.0 e.1.bytes)
      × IsImage (page_image tx_id e.0 e.1.bytes)
image_lem tx_id e small s =
    rw s.named at
      (image_of_page-IsImage tx_id e.1 s.type small s.well (omega (arith, s.room, s.named)))

pub images-IsImage :
    (tx_id : TxId) (pages : DirtyPages)
    → tx_id < 2 ^ 64
    → All IsStaged pages
    → All IsKind (images tx_id pages) × All IsImage (images tx_id pages)
unfolding images
images-IsImage tx_id [] small h = (tt, tt)
images-IsImage tx_id (e ∷ pages) small h =
    let (made, kind, image) = image_lem tx_id e small h.0 in
    let (kinds, all_images) = images-IsImage tx_id pages small h.1 in
    ((kind, kinds), (image, all_images))

module _ (vfs : VfsFile) (laws : FileLaws vfs) (healthy : NeverFails vfs laws) where
  open vfs use {File}

  pub log_pages_ok :
      (tx_id : TxId) (pages : DirtyPages) (m : TransactionalStore File) (ks : List WalRecordKind)
      → tx_id < 2 ^ 64
      → All IsStaged pages
      → IsLog vfs laws m.wal ks
      → log_len ks + log_len (images tx_id pages) < max_offset
      → (w : WalWriter File) × (log_pages vfs tx_id (values pages) m
          ≡ (ok tt, record m { wal = w }))
        × IsLog vfs laws w (ks ++ images tx_id pages)
  unfolding log_pages values images log_len
  log_pages_ok tx_id [] m ks small h log room = (m.wal, refl, rw (append-nil ks) log)
  log_pages_ok tx_id (e ∷ pages) m ks small h log room =
      let k = page_image tx_id e.0 e.1.bytes in
      let (made, kind, image) = image_lem tx_id e small h.0 in
      let one = append-IsLog vfs laws healthy m.wal ks k log kind (omega (arith, room)) in
      let m' : TransactionalStore File = record m { wal = (append vfs k m.wal).1 } in
      let (w, run, rest) =
        log_pages_ok tx_id pages m' (ks ++ (k ∷ [])) small h.1 one.1
          (omega (arith, room, log_len-append ks (k ∷ []))) in
      (w, rw (made, one.0) run, rw (append_assoc ks (k ∷ []) (images tx_id pages)) at rest)

  write_pages_ok :
      (pages : DirtyPages) (m : TransactionalStore File)
      → All IsStaged pages
      → ((write_pages vfs (values pages) m).0 ≡ ok tt)
        × ((write_pages vfs (values pages) m).1.wal ≡ m.wal)
  unfolding write_pages values
  write_pages_ok [] m h = (refl, refl)
  write_pages_ok (e ∷ pages) m h =
      rw
        ((write_page_ok vfs laws healthy e.0 e.1 h.0.type m.store.page_file h.0.well h.0.named
          h.0.room).0)
        (write_pages_ok pages ((on_data (write_page vfs e.1) m).1) h.1)

  pub commit_ok :
      (t : Transaction File) (ks : List WalRecordKind)
      → t.state ≡ active
      → t.tx_id < 2 ^ 64
      → All IsStaged t.dirty_pages
      → IsLog vfs laws t.manager.wal ks
      → log_len ks + log_len (committed_log t.tx_id t.dirty_pages) < max_offset
      → ((commit vfs t).0 ≡ ok tt)
        × IsLog vfs laws (commit vfs t).1.wal (ks ++ committed_log t.tx_id t.dirty_pages)
        × ((commit vfs t).1.store.catalog ≡ t.working_catalog)
  unfolding commit commit_body ensure_active sync_wal dropped log_len
  commit_ok t ks is_active small staged log room =
      let ms = images t.tx_id t.dirty_pages in
      let total = log_len-append ms (commit_tx t.tx_id ∷ []) in
      let (w, logged, in_log) =
        log_pages_ok t.tx_id t.dirty_pages t.manager ks small staged log
          (omega (arith, room, total)) in
      let last =
        append-IsLog vfs laws healthy w (ks ++ ms) (commit_tx t.tx_id) in_log small
          (omega (arith, room, total, log_len-append ks ms)) in
      let wal = (append vfs (commit_tx t.tx_id) w).1 in
      let m : TransactionalStore File = record t.manager { wal = (sync_wal vfs wal).1 } in
      let in_end = rw (append_assoc ks ms (commit_tx t.tx_id ∷ [])) at last.1 in
      let (written, kept) = write_pages_ok t.dirty_pages m staged in
      rw (is_active, logged, last.0, healthy.syncs _, written, healthy.syncs _, kept)
        (refl, (in_end.0, laws.sync_keeps wal.file ∙ in_end.1, in_end.2), refl)

  -- The transaction that a store whose writer is free begins; the log then has its record.
  abbrev pub begun : TransactionalStore File → Transaction File
  begun m = record {
    manager = record m {
      wal = (append vfs (begin_tx m.next_tx_id) m.wal).1;
      next_tx_id = m.next_tx_id + 1;
      active_writer = true;
    };
    tx_id = m.next_tx_id;
    working_catalog = m.store.catalog;
    dirty_pages = [];
    state = active;
  }

  pub begin_ok :
      (m : TransactionalStore File) (ks : List WalRecordKind)
      → m.active_writer ≡ false
      → m.next_tx_id + 1 < 2 ^ 64
      → IsLog vfs laws m.wal ks
      → log_len ks + record_len (begin_tx m.next_tx_id) < max_offset
      → ((begin vfs m).0 ≡ ok (begun m))
        × IsLog vfs laws (begun m).manager.wal (ks ++ (begin_tx m.next_tx_id ∷ []))
  unfolding begin allocate_tx_id
  begin_ok m ks free small log room =
      let one =
        append-IsLog vfs laws healthy m.wal ks (begin_tx m.next_tx_id) log (omega (arith, small))
          room in
      (rw (free, lt→ltb _ _ small, one.0) refl, one.1)
