-- ===== src/Tx/Images.antt =====
-- What the log of a transaction adds to the images that recovery replays.
use mathlib.Core.Path.{fun_ext}
use rdbms.Prelude.{
  ℕ, ◌≡◌, refl, sym, arith, Bool, true, false, not, ◌||◌, Option, none, some, List, [], ◌∷◌, ◌++◌,
  ◌==◌, ==_refl, inl, inr, Bool-cases,
}
use rdbms.Core.{PageId, TxId}
use rdbms.Page.Format.{Page}
use rdbms.Wal.Format.{WalRecordKind, begin_tx, page_image, commit_tx, abort_tx, checkpoint}
use rdbms.Wal.Winner.{is_commit_of, is_abort_of}
use rdbms.Wal.Log.Layout.{stamped}
use rdbms.Recovery.Latest.{
  any_of, wins, any_of-append, image_of, later-none, last_of, last_of-append, last_image-log,
}
use rdbms.Recovery.Replay.{later, last_image}
use rdbms.Tx.Pages.{DirtyPages, get_page}
use rdbms.Tx.Sorted.{IsAbove, IsSorted, get_page_above}
use rdbms.Tx.Log.{images, committed_log}

any_of-images :
    (u tx_id : TxId) (pages : DirtyPages)
    → (any_of (is_commit_of u) (images tx_id pages) ≡ false)
      × (any_of (is_abort_of u) (images tx_id pages) ≡ false)
unfolding any_of images
any_of-images u tx_id [] = (refl, refl)
any_of-images u tx_id (e ∷ pages) = any_of-images u tx_id pages

abbrev pub bytes_of : Option Page → Option (List ℕ)
bytes_of (some page) = some page.bytes
bytes_of none = none

module _ (won : TxId → Bool) (tx_id : TxId) (id : PageId) where
  -- The images of a transaction that counts: the staged page under each id.
  last_of-images :
      (pages : DirtyPages)
      → won tx_id ≡ true
      → IsSorted pages
      → last_of won (images tx_id pages) id ≡ bytes_of (get_page id pages)
  unfolding last_of images image_of get_page
  last_of-images [] h s = refl
  last_of-images ((k, page) ∷ pages) h s = elim (Bool-cases (k == id)) [
    | inl y ↦
        let same : k ≡ id = ground (arith, y) in
        let rest = last_of-images pages h s.1 in
        let over : IsAbove id pages = rw same at s.0 in
        rw (y, h, rest, get_page_above id pages over) refl
    | inr y ↦
        rw (y, h, last_of-images pages h s.1) (sym (later-none (bytes_of (get_page id pages))))
  ]

  last_of-images_lost :
      (pages : DirtyPages) → won tx_id ≡ false → last_of won (images tx_id pages) id ≡ none
  unfolding last_of images image_of
  last_of-images_lost [] h = refl
  last_of-images_lost (e ∷ pages) h = rw (h, last_of-images_lost pages h) refl

-- An abort record of a transaction takes its images away, wherever it stands.
wins_aborted :
    (ks : List WalRecordKind) (t : TxId) → any_of (is_abort_of t) ks ≡ true → wins ks t ≡ false
unfolding wins
wins_aborted ks t h = ground (arith, h)

module _ (ks : List WalRecordKind) (tx_id : TxId) (pages : DirtyPages) where
  commits : any_of (is_commit_of tx_id) (ks ++ committed_log tx_id pages) ≡ true
  unfolding any_of
  commits = ground (
    arith,
    any_of-append (is_commit_of tx_id) ks (committed_log tx_id pages),
    any_of-append (is_commit_of tx_id) (images tx_id pages) (commit_tx tx_id ∷ []),
    ==_refl tx_id,
  )

  aborts :
      any_of (is_abort_of tx_id) (ks ++ committed_log tx_id pages) ≡ any_of (is_abort_of tx_id) ks
  unfolding any_of
  aborts = ground (
    arith,
    any_of-append (is_abort_of tx_id) ks (committed_log tx_id pages),
    any_of-append (is_abort_of tx_id) (images tx_id pages) (commit_tx tx_id ∷ []),
    (any_of-images tx_id tx_id pages).1,
  )

-- Which records make a transaction id used: an image or an abort of it.
abbrev pub is_use_of : TxId → WalRecordKind → Bool
is_use_of t (page_image tx_id page_id image) = tx_id == t
is_use_of t (abort_tx tx_id) = tx_id == t
is_use_of t (begin_tx tx_id) = false
is_use_of t (commit_tx tx_id) = false
is_use_of t checkpoint = false

or_false_inv : (a b : Bool) → (a || b) ≡ false → (a ≡ false) × (b ≡ false)
or_false_inv a b h = ground (arith, h)

-- Two ways to count that agree on every other transaction replay the same of records that do not use it.
last_of_agree :
    (won old : TxId → Bool) (tx_id : TxId) (ks : List WalRecordKind) (id : PageId)
    → ((u : TxId) → (u == tx_id) ≡ false → won u ≡ old u)
    → any_of (is_use_of tx_id) ks ≡ false
    → last_of won ks id ≡ last_of old ks id
unfolding last_of image_of any_of
last_of_agree won old tx_id [] id h x = refl
last_of_agree won old tx_id (page_image u p image ∷ ks) id h x =
    let (one, rest) = or_false_inv (u == tx_id) (any_of (is_use_of tx_id) ks) x in
    rw (h u one, last_of_agree won old tx_id ks id h rest) refl
last_of_agree won old tx_id (abort_tx u ∷ ks) id h x =
    let (one, rest) = or_false_inv (u == tx_id) (any_of (is_use_of tx_id) ks) x in
    rw (last_of_agree won old tx_id ks id h rest) refl
last_of_agree won old tx_id (begin_tx u ∷ ks) id h x =
    rw (last_of_agree won old tx_id ks id h x) refl
last_of_agree won old tx_id (commit_tx u ∷ ks) id h x =
    rw (last_of_agree won old tx_id ks id h x) refl
last_of_agree won old tx_id (checkpoint ∷ ks) id h x =
    rw (last_of_agree won old tx_id ks id h x) refl

unused :
    (ks : List WalRecordKind) (t : TxId)
    → any_of (is_use_of t) ks ≡ false
    → any_of (is_abort_of t) ks ≡ false
unfolding any_of
unused [] t h = refl
unused (page_image u p image ∷ ks) t h =
    unused ks t (or_false_inv (u == t) (any_of (is_use_of t) ks) h).1
unused (abort_tx u ∷ ks) t h =
    let (one, rest) = or_false_inv (u == t) (any_of (is_use_of t) ks) h in
    rw (one, unused ks t rest) refl
unused (begin_tx u ∷ ks) t h = unused ks t h
unused (commit_tx u ∷ ks) t h = unused ks t h
unused (checkpoint ∷ ks) t h = unused ks t h

-- Which transactions win once another one has been logged.
module _ (ks : List WalRecordKind) (tx_id : TxId) (pages : DirtyPages) where
  wins-images : (u : TxId) → wins (ks ++ images tx_id pages) u ≡ wins ks u
  unfolding wins
  wins-images u =
      let (c, a) = any_of-images u tx_id pages in
      ground (
        arith,
        c,
        a,
        any_of-append (is_commit_of u) ks (images tx_id pages),
        any_of-append (is_abort_of u) ks (images tx_id pages),
      )

  wins_other :
      (u : TxId) → (u == tx_id) ≡ false → wins (ks ++ committed_log tx_id pages) u ≡ wins ks u
  unfolding wins any_of
  wins_other u h =
      let (c, a) = any_of-images u tx_id pages in
      ground (
        arith,
        h,
        c,
        a,
        any_of-append (is_commit_of u) ks (committed_log tx_id pages),
        any_of-append (is_abort_of u) ks (committed_log tx_id pages),
        any_of-append (is_commit_of u) (images tx_id pages) (commit_tx tx_id ∷ []),
        any_of-append (is_abort_of u) (images tx_id pages) (commit_tx tx_id ∷ []),
      )

  wins_self : wins (ks ++ committed_log tx_id pages) tx_id ≡ not (any_of (is_abort_of tx_id) ks)
  unfolding wins
  wins_self = rw (commits ks tx_id pages, aborts ks tx_id pages) refl

  wins_all :
      any_of (is_abort_of tx_id) ks ≡ true
      → (u : TxId) → wins (ks ++ committed_log tx_id pages) u ≡ wins ks u
  wins_all h u = elim (Bool-cases (u == tx_id)) [
    | inl y ↦
        let same : u ≡ tx_id = ground (arith, y) in
        rw (same, wins_self, h, wins_aborted ks tx_id h) refl
    | inr y ↦ wins_other u y
  ]

committed_split :
    (won : TxId → Bool) (ks : List WalRecordKind) (tx_id : TxId) (pages : DirtyPages) (id : PageId)
    → last_of won (ks ++ committed_log tx_id pages) id
      ≡ later (last_of won ks id) (last_of won (images tx_id pages) id)
unfolding last_of image_of
committed_split won ks tx_id pages id =
    rw
      (
        last_of-append won ks (committed_log tx_id pages) id,
        last_of-append won (images tx_id pages) (commit_tx tx_id ∷ []) id,
      )
      refl

-- Once the transaction has committed, under an id that the log did not use: its pages, over the earlier ones.
pub last_image_committed :
    (ks : List WalRecordKind) (tx_id : TxId) (pages : DirtyPages) (id : PageId)
    → IsSorted pages
    → any_of (is_use_of tx_id) ks ≡ false
    → last_image
        (stamped 0 (ks ++ committed_log tx_id pages))
        (stamped 0 (ks ++ committed_log tx_id pages))
        id
      ≡ later (last_image (stamped 0 ks) (stamped 0 ks) id) (bytes_of (get_page id pages))
last_image_committed ks tx_id pages id sorted fresh =
    let won = wins (ks ++ committed_log tx_id pages) in
    let self : won tx_id ≡ true = rw (wins_self ks tx_id pages, unused ks tx_id fresh) refl in
    rw
      (
        last_image-log (ks ++ committed_log tx_id pages) id,
        last_image-log ks id,
        committed_split won ks tx_id pages id,
        last_of-images won tx_id id pages self sorted,
        last_of_agree won (wins ks) tx_id ks id (wins_other ks tx_id pages) fresh,
      )
      refl

-- Before the commit marker: the earlier pages.
pub last_image_uncommitted :
    (ks : List WalRecordKind) (tx_id : TxId) (pages : DirtyPages) (id : PageId)
    → wins ks tx_id ≡ false
    → last_image (stamped 0 (ks ++ images tx_id pages)) (stamped 0 (ks ++ images tx_id pages)) id
      ≡ last_image (stamped 0 ks) (stamped 0 ks) id
last_image_uncommitted ks tx_id pages id lost =
    rw
      (
        last_image-log (ks ++ images tx_id pages) id,
        last_image-log ks id,
        fun_ext (wins-images ks tx_id pages),
        last_of-append (wins ks) ks (images tx_id pages) id,
        last_of-images_lost (wins ks) tx_id id pages lost,
      )
      refl

-- Before the commit marker, under an id that the log committed: the staged pages, over the earlier ones.
pub last_image_unmarked :
    (ks : List WalRecordKind) (tx_id : TxId) (pages : DirtyPages) (id : PageId)
    → IsSorted pages
    → wins ks tx_id ≡ true
    → last_image (stamped 0 (ks ++ images tx_id pages)) (stamped 0 (ks ++ images tx_id pages)) id
      ≡ later (last_image (stamped 0 ks) (stamped 0 ks) id) (bytes_of (get_page id pages))
last_image_unmarked ks tx_id pages id sorted won =
    rw
      (
        last_image-log (ks ++ images tx_id pages) id,
        last_image-log ks id,
        fun_ext (wins-images ks tx_id pages),
        last_of-append (wins ks) ks (images tx_id pages) id,
        last_of-images (wins ks) tx_id id pages won sorted,
      )
      refl

-- Under an id that the log aborted: the earlier pages, although the marker is there.
pub last_image_reused :
    (ks : List WalRecordKind) (tx_id : TxId) (pages : DirtyPages) (id : PageId)
    → any_of (is_abort_of tx_id) ks ≡ true
    → last_image
        (stamped 0 (ks ++ committed_log tx_id pages))
        (stamped 0 (ks ++ committed_log tx_id pages))
        id
      ≡ last_image (stamped 0 ks) (stamped 0 ks) id
last_image_reused ks tx_id pages id aborted =
    rw
      (
        last_image-log (ks ++ committed_log tx_id pages) id,
        last_image-log ks id,
        fun_ext (wins_all ks tx_id pages aborted),
        committed_split (wins ks) ks tx_id pages id,
        last_of-images_lost (wins ks) tx_id id pages (wins_aborted ks tx_id aborted),
      )
      refl
