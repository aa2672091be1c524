-- ===== src/Recovery/Latest.antt =====
-- The last replayed image of a page, for the kinds of a log.
use rdbms.Prelude.{
  ℕ, ◌+◌, ◌≡◌, refl, ap, arith, Bool, false, not, ◌&&◌, ◌||◌, Option, none, some, List, [], ◌∷◌,
  ◌++◌, ◌==◌, if◌then◌else◌,
}
use rdbms.Core.{PageId, TxId}
use rdbms.Wal.Format.{
  WalRecordKind, begin_tx, page_image, commit_tx, abort_tx, checkpoint, WalRecord,
}
use rdbms.Wal.Winner.{is_commit_of, is_abort_of, any_kind, is_winner}
use rdbms.Wal.Log.Layout.{record_len, stamped}
use rdbms.Recovery.Replay.{image_at, later, last_image}

unfoldable pub any_of : (WalRecordKind → Bool) → List WalRecordKind → Bool
any_of test [] = false
any_of test (k ∷ ks) = test k || any_of test ks

unfoldable pub wins : List WalRecordKind → TxId → Bool
wins ks t = any_of (is_commit_of t) ks && not (any_of (is_abort_of t) ks)

any_kind-stamped :
    (test : WalRecordKind → Bool) (ks : List WalRecordKind) (off : ℕ)
    → any_kind test (stamped off ks) ≡ any_of test ks
unfolding any_kind any_of stamped
any_kind-stamped test [] off = refl
any_kind-stamped test (k ∷ ks) off =
    ap (λ b. test k || b) (any_kind-stamped test ks (off + record_len k))

pub is_winner-stamped :
    (ks : List WalRecordKind) (off : ℕ) (t : TxId) → is_winner (stamped off ks) t ≡ wins ks t
unfolding is_winner wins
is_winner-stamped ks off t =
    rw (any_kind-stamped (is_commit_of t) ks off, any_kind-stamped (is_abort_of t) ks off) refl

pub any_of-append :
    (test : WalRecordKind → Bool) (ks ms : List WalRecordKind)
    → any_of test (ks ++ ms) ≡ (any_of test ks || any_of test ms)
unfolding any_of
any_of-append test [] ms = refl
any_of-append test (k ∷ ks) ms = ground (arith, any_of-append test ks ms)

-- The image that a kind replays, where `won` says which transactions count.
unfoldable pub image_of : (TxId → Bool) → WalRecordKind → PageId → Option (List ℕ)
image_of won (page_image tx_id page_id image) id =
    if won tx_id && (page_id == id) then some image else none
image_of won (begin_tx tx_id) id = none
image_of won (commit_tx tx_id) id = none
image_of won (abort_tx tx_id) id = none
image_of won checkpoint id = none

unfoldable pub last_of : (TxId → Bool) → List WalRecordKind → PageId → Option (List ℕ)
last_of won [] id = none
last_of won (k ∷ ks) id = later (image_of won k id) (last_of won ks id)

pub later-none : (o : Option (List ℕ)) → o ≡ later none o
later-none (some image) = refl
later-none none = refl

later_assoc : (a b c : Option (List ℕ)) → later a (later b c) ≡ later (later a b) c
later_assoc a b (some image) = refl
later_assoc a b none = refl

pub last_of-append :
    (won : TxId → Bool) (ks ms : List WalRecordKind) (id : PageId)
    → last_of won (ks ++ ms) id ≡ later (last_of won ks id) (last_of won ms id)
unfolding last_of
last_of-append won [] ms id = later-none (last_of won ms id)
last_of-append won (k ∷ ks) ms id =
    rw (last_of-append won ks ms id)
      (later_assoc (image_of won k id) (last_of won ks id) (last_of won ms id))

image_at-image_of :
    (all : List WalRecord) (won : TxId → Bool) (k : WalRecordKind) (id : PageId)
    → ((t : TxId) → is_winner all t ≡ won t)
    → image_at all k id ≡ image_of won k id
unfolding image_at image_of
image_at-image_of all won (page_image tx_id page_id image) id h = rw (h tx_id) refl
image_at-image_of all won (begin_tx tx_id) id h = refl
image_at-image_of all won (commit_tx tx_id) id h = refl
image_at-image_of all won (abort_tx tx_id) id h = refl
image_at-image_of all won checkpoint id h = refl

last_image-last_of :
    (all : List WalRecord) (won : TxId → Bool) (ks : List WalRecordKind) (off : ℕ) (id : PageId)
    → ((t : TxId) → is_winner all t ≡ won t)
    → last_image all (stamped off ks) id ≡ last_of won ks id
unfolding last_image last_of stamped
last_image-last_of all won [] off id h = refl
last_image-last_of all won (k ∷ ks) off id h =
    rw (image_at-image_of all won k id h, last_image-last_of all won ks (off + record_len k) id h)
      refl

-- The images that recovery replays from a log are those of the transactions that win in it.
pub last_image-log :
    (ks : List WalRecordKind) (id : PageId)
    → last_image (stamped 0 ks) (stamped 0 ks) id ≡ last_of (wins ks) ks id
last_image-log ks id = last_image-last_of (stamped 0 ks) (wins ks) ks 0 id (is_winner-stamped ks 0)
