-- ===== src/Wal/Winner.antt =====
-- Which transactions a log redoes, said without the sets of ids.
use rdbms.Prelude.{◌≡◌, refl, ap, Bool, false, not, ◌&&◌, ◌||◌, List, [], ◌∷◌, ◌==◌}
use rdbms.Core.{TxId}
use rdbms.Wal.Format.{
  WalRecordKind, begin_tx, page_image, commit_tx, abort_tx, checkpoint, WalRecord,
}
use rdbms.Wal.Redo.{contains, committed_ids, aborted_ids, is_redone}

abbrev pub is_commit_of : TxId → WalRecordKind → Bool
is_commit_of t (commit_tx tx_id) = tx_id == t
is_commit_of t (begin_tx tx_id) = false
is_commit_of t (page_image tx_id page_id image) = false
is_commit_of t (abort_tx tx_id) = false
is_commit_of t checkpoint = false

abbrev pub is_abort_of : TxId → WalRecordKind → Bool
is_abort_of t (abort_tx tx_id) = tx_id == t
is_abort_of t (begin_tx tx_id) = false
is_abort_of t (page_image tx_id page_id image) = false
is_abort_of t (commit_tx tx_id) = false
is_abort_of t checkpoint = false

unfoldable pub any_kind : (WalRecordKind → Bool) → List WalRecord → Bool
any_kind test [] = false
any_kind test (r ∷ records) = test r.kind || any_kind test records

-- A transaction with a commit marker in the log and no abort marker.
unfoldable pub is_winner : List WalRecord → TxId → Bool
is_winner records t = any_kind (is_commit_of t) records && not (any_kind (is_abort_of t) records)

contains-committed_ids :
    (records : List WalRecord) (t : TxId)
    → contains (committed_ids records) t ≡ any_kind (is_commit_of t) records
unfolding contains committed_ids any_kind
contains-committed_ids [] t = refl
contains-committed_ids (r ∷ records) t = split r.kind (contains-committed_ids records t)
  where
    split :
        (k : WalRecordKind)
        → contains (committed_ids records) t ≡ any_kind (is_commit_of t) records
        → contains
            (elim k [ commit_tx tx_id ↦ tx_id ∷ committed_ids records | _ ↦ committed_ids records ])
            t
          ≡ (is_commit_of t k || any_kind (is_commit_of t) records)
    split (commit_tx tx_id) rest = ap (λ b. (tx_id == t) || b) rest
    split (begin_tx tx_id) rest = rest
    split (page_image tx_id page_id image) rest = rest
    split (abort_tx tx_id) rest = rest
    split checkpoint rest = rest

contains-aborted_ids :
    (records : List WalRecord) (t : TxId)
    → contains (aborted_ids records) t ≡ any_kind (is_abort_of t) records
unfolding contains aborted_ids any_kind
contains-aborted_ids [] t = refl
contains-aborted_ids (r ∷ records) t = split r.kind (contains-aborted_ids records t)
  where
    split :
        (k : WalRecordKind)
        → contains (aborted_ids records) t ≡ any_kind (is_abort_of t) records
        → contains
            (elim k [ abort_tx tx_id ↦ tx_id ∷ aborted_ids records | _ ↦ aborted_ids records ])
            t
          ≡ (is_abort_of t k || any_kind (is_abort_of t) records)
    split (abort_tx tx_id) rest = ap (λ b. (tx_id == t) || b) rest
    split (begin_tx tx_id) rest = rest
    split (page_image tx_id page_id image) rest = rest
    split (commit_tx tx_id) rest = rest
    split checkpoint rest = rest

-- The sets of the code pick the winners.
pub is_redone_lem :
    (records : List WalRecord) (t : TxId) → is_redone records t ≡ is_winner records t
unfolding is_redone is_winner
is_redone_lem records t = rw (contains-committed_ids records t, contains-aborted_ids records t) refl
