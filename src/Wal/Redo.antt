-- ===== src/Wal/Redo.antt =====
-- `redo_committed_page_images` of crates/rdbms_wal/src/lib.rs. A set of transaction ids is a list.
use rdbms.Prelude.{ℕ, Bool, false, not, ◌&&◌, ◌||◌, List, [], ◌∷◌, ◌==◌, if◌then◌else◌}
use rdbms.Core.{PageId, TxId, Lsn, corruption, reject}
use rdbms.Exec.{Exec, pure, lift, ◌>>=◌, ◌>>◌}
use rdbms.Page.Format.{header, from_bytes}
use rdbms.Wal.Format.{
  WalRecordKind, begin_tx, page_image, commit_tx, abort_tx, checkpoint, WalRecord,
}

-- The trait of the receivers.
pub record PageImageRedo : Type 1 where
  pub Sink : Type 0
  pub redo_page_image : Lsn → TxId → PageId → List ℕ → Exec Sink (Unit {0})

unfoldable pub contains : List TxId → TxId → Bool
contains [] tx_id = false
contains (t ∷ ts) tx_id = (t == tx_id) || contains ts tx_id

-- The first loop: the ids of the commit markers and of the abort markers.
unfoldable pub committed_ids : List WalRecord → List TxId
committed_ids [] = []
committed_ids (r ∷ records) = elim r.kind [
  | commit_tx tx_id ↦ tx_id ∷ committed_ids records
  | _ ↦ committed_ids records
]

unfoldable pub aborted_ids : List WalRecord → List TxId
aborted_ids [] = []
aborted_ids (r ∷ records) = elim r.kind [
  | abort_tx tx_id ↦ tx_id ∷ aborted_ids records
  | _ ↦ aborted_ids records
]

unfoldable pub is_redone : List WalRecord → TxId → Bool
is_redone records tx_id =
    contains (committed_ids records) tx_id && not (contains (aborted_ids records) tx_id)

module _ (target : PageImageRedo) where
  open target use {Sink, redo_page_image}

  -- The body of the second loop; `all` is the whole log, whose markers decide.
  unfoldable pub redo_record : List WalRecord → Lsn → WalRecordKind → Exec Sink (Unit {0})
  redo_record all lsn (page_image tx_id page_id image) =
      if is_redone all tx_id
      then (do
        page ← lift (from_bytes image)
        h ← lift (header page)
        lift (reject (not (h.page_id == page_id)) corruption)
        redo_page_image lsn tx_id page_id image)
      else pure tt
  redo_record all lsn (begin_tx tx_id) = pure tt
  redo_record all lsn (commit_tx tx_id) = pure tt
  redo_record all lsn (abort_tx tx_id) = pure tt
  redo_record all lsn checkpoint = pure tt

  unfoldable pub redo_records : List WalRecord → List WalRecord → Exec Sink (Unit {0})
  redo_records all [] = pure tt
  redo_records all (r ∷ records) = do redo_record all r.lsn r.kind; redo_records all records

  unfoldable pub redo_committed_page_images : List WalRecord → Exec Sink (Unit {0})
  redo_committed_page_images records = redo_records records records
