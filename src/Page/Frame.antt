-- ===== src/Page/Frame.antt =====
-- The writes of the page methods: what each sets, and the ranges that it leaves as they are.
use rdbms.Prelude.{
  ℕ, suc, ◌+◌, ◌%◌, ◌^◌, ◌≤◌, ◌<◌, ◌≡◌, ap, sym, ◌∙◌, arith, List, [], ◌∷◌, length, All, ◌⊎◌, inl,
  inr,
}
use rdbms.Bytes.{IsByte, slice, splice, to_le_bytes, from_le_bytes, read_le, write_le}
use rdbms.Bytes.Slices.{
  length-splice, slice-splice_below, slice-splice_above, splice-splice, All-splice,
}
use rdbms.Bytes.Words.{length-to_le_bytes, length-write_le, write_le-IsByte, read-write_self}
use rdbms.Page.Format.{
  page_size, slot_size, off_checksum, SlotEntry, Page, IsPage, checksum_from, checksum,
}
use rdbms.Page.Ops.{put_bytes, put_le, refresh_checksum, put_slot}
use rdbms.Page.Shape.{slot_at, entry}

-- The two pages hold the same bytes from a to b.
abbrev pub AgreeOn : Page → Page → ℕ → ℕ → Type 0
AgreeOn p q a b = (s n : ℕ) → a ≤ s → s + n ≤ b → slice p.bytes s n ≡ slice q.bytes s n

pub AgreeOn-trans : (p q r : Page) (a b : ℕ) → AgreeOn p q a b → AgreeOn q r a b → AgreeOn p r a b
AgreeOn-trans p q r a b h k s n lo hi = h s n lo hi ∙ k s n lo hi

pub agree_read :
    (p q : Page) (a b s n : ℕ)
    → AgreeOn p q a b
    → a ≤ s
    → s + n ≤ b
    → read_le n p.bytes s ≡ read_le n q.bytes s
unfolding read_le
agree_read p q a b s n h lo hi = ap from_le_bytes (h s n lo hi)

pub agree_entry :
    (p q : Page) (i : ℕ) → AgreeOn p q (slot_at i) (slot_at (suc i)) → entry p i ≡ entry q i
unfolding entry
agree_entry p q i h = cc (
  agree_read p q (slot_at i) (slot_at (suc i)) (slot_at i) 2 h (omega arith) (omega arith),
  agree_read p q (slot_at i) (slot_at (suc i)) (slot_at i + 2) 2 h (omega arith) (omega arith),
  agree_read p q (slot_at i) (slot_at (suc i)) (slot_at i + 4) 2 h (omega arith) (omega arith),
)

-- A write of the range from `at` to `at + n` leaves what is below or above it.
abbrev pub Outside : ℕ → ℕ → ℕ → ℕ → Type 0
Outside a b at n = (b ≤ at) ⊎ (at + n ≤ a)

module _ (p : Page) (a b : ℕ) where
  pub agree-put_bytes :
      (at : ℕ) (d : List ℕ) → Outside a b at (length d) → AgreeOn (put_bytes at d p) p a b
  unfolding put_bytes
  agree-put_bytes at d (inl h) s n lo hi = slice-splice_below p.bytes s n at d (omega arith)
  agree-put_bytes at d (inr h) s n lo hi = slice-splice_above p.bytes s n at d (omega arith)

  pub agree-put_le : (n at v : ℕ) → Outside a b at n → AgreeOn (put_le n at v p) p a b
  unfolding put_le write_le put_bytes
  agree-put_le n at v h = agree-put_bytes at (to_le_bytes n v) (rw (length-to_le_bytes n v) h)

-- What the writes leave alone.
module _ (p : Page) (a b : ℕ) where
  pub agree-refresh : Outside a b off_checksum 4 → AgreeOn (refresh_checksum p) p a b
  unfolding refresh_checksum
  agree-refresh h =
      let cleared : Page = put_le 4 off_checksum 0 p in
      let sum : ℕ = checksum cleared.bytes in
      AgreeOn-trans (put_le 4 off_checksum sum cleared) cleared p a b
        (agree-put_le cleared a b 4 off_checksum sum h) (agree-put_le p a b 4 off_checksum 0 h)

  pub agree-put_slot :
      (at : ℕ) (e : SlotEntry) → Outside a b at slot_size → AgreeOn (put_slot at e p) p a b
  unfolding put_slot
  agree-put_slot at e h =
      let p1 : Page = put_le 2 at e.offset p in
      let p2 : Page = put_le 2 (at + 2) e.len p1 in
      let p3 : Page = put_le 2 (at + 4) e.flags p2 in
      AgreeOn-trans p3 p2 p a b (agree-put_le p2 a b 2 (at + 4) e.flags (ground arith)) (
        AgreeOn-trans p2 p1 p a b (agree-put_le p1 a b 2 (at + 2) e.len (ground arith))
          (agree-put_le p a b 2 at e.offset (ground arith)))

module _ (p : Page) (v : IsPage p) where
  pub put_bytes-IsPage : (at : ℕ) (d : List ℕ) → All IsByte d → IsPage (put_bytes at d p)
  unfolding put_bytes
  put_bytes-IsPage at d h = record {
    sized = length-splice p.bytes at d ∙ v.sized;
    in_range = All-splice IsByte p.bytes at d v.in_range h;
  }

  pub put_le-IsPage : (n at x : ℕ) → IsPage (put_le n at x p)
  unfolding put_le
  put_le-IsPage n at x = record {
    sized = length-write_le n p.bytes at x ∙ v.sized;
    in_range = write_le-IsByte n p.bytes at x v.in_range;
  }

  pub read-put_le :
      (n at x : ℕ) → at + n ≤ page_size → x < 256 ^ n → read_le n (put_le n at x p).bytes at ≡ x
  unfolding put_le
  read-put_le n at x fits h = read-write_self n p.bytes at x (omega (arith, v.sized)) h

module _ (p : Page) (v : IsPage p) where
  pub refresh-IsPage : IsPage (refresh_checksum p)
  unfolding refresh_checksum
  refresh-IsPage = put_le-IsPage _ (put_le-IsPage p v 4 off_checksum 0) 4 off_checksum _

  pub put_slot-IsPage : (at : ℕ) (e : SlotEntry) → IsPage (put_slot at e p)
  unfolding put_slot
  put_slot-IsPage at e =
      let v1 = put_le-IsPage p v 2 at e.offset in
      let v2 = put_le-IsPage _ v1 2 (at + 2) e.len in put_le-IsPage _ v2 2 (at + 4) e.flags

  -- The slot reads back what was written.
  pub entry-put_slot :
      (i : ℕ) (e : SlotEntry)
      → slot_at (suc i) ≤ page_size
      → e.offset < 2 ^ 16
      → e.len < 2 ^ 16
      → e.flags < 2 ^ 16
      → entry (put_slot (slot_at i) e p) i ≡ e
  unfolding entry put_slot
  entry-put_slot i e fits ho hl hf =
      let at : ℕ = slot_at i in
      let p1 : Page = put_le 2 at e.offset p in
      let p2 : Page = put_le 2 (at + 2) e.len p1 in
      let p3 : Page = put_le 2 (at + 4) e.flags p2 in
      let v1 = put_le-IsPage p v 2 at e.offset in
      let v2 = put_le-IsPage p1 v1 2 (at + 2) e.len in
      let low : AgreeOn p2 p1 at (at + 2) =
        agree-put_le p1 at (at + 2) 2 (at + 2) e.len (omega arith) in
      let high : AgreeOn p3 p2 at (at + 4) =
        agree-put_le p2 at (at + 4) 2 (at + 4) e.flags (omega arith) in
      cc (
        agree_read p3 p2 at (at + 4) at 2 high (omega arith) (omega arith),
        agree_read p3 p2 at (at + 4) (at + 2) 2 high (omega arith) (omega arith),
        agree_read p2 p1 at (at + 2) at 2 low (omega arith) (omega arith),
        read-put_le p v 2 at e.offset (omega arith) ho,
        read-put_le p1 v1 2 (at + 2) e.len (omega arith) hl,
        read-put_le p2 v2 2 (at + 4) e.flags (omega arith) hf,
      )

checksum_from-lt : (acc : ℕ) (bs : List ℕ) → acc < 2 ^ 32 → checksum_from acc bs < 2 ^ 32
unfolding checksum_from
checksum_from-lt acc [] h = h
checksum_from-lt acc (b ∷ bs) h = checksum_from-lt ((acc + b) % 2 ^ 32) bs (omega arith)

pub checksum-lt : (bs : List ℕ) → checksum bs < 2 ^ 32
unfolding checksum
checksum-lt bs = checksum_from-lt 0 bs (omega arith)

-- A second write of a range hides the first.
rewrite_le :
    (bs : List ℕ) (n at u v w : ℕ)
    → write_le n (write_le n (write_le n bs at u) at v) at w ≡ write_le n bs at w
unfolding write_le
rewrite_le bs n at u v w =
    let same : (x y : ℕ) → length (to_le_bytes n x) ≡ length (to_le_bytes n y) =
      λ x y. length-to_le_bytes n x ∙ sym (length-to_le_bytes n y) in
    splice-splice (splice bs at (to_le_bytes n u)) at (to_le_bytes n v) (to_le_bytes n w) (same v w)
    ∙ splice-splice bs at (to_le_bytes n u) (to_le_bytes n w) (same u w)

-- After `refresh_checksum` the stored checksum is that of the page.
pub refresh-checked :
    (p : Page)
    → IsPage p
    → checksum (write_le 4 (refresh_checksum p).bytes off_checksum 0)
      ≡ read_le 4 (refresh_checksum p).bytes off_checksum
unfolding refresh_checksum put_le
refresh-checked p v =
    let cleared : Page = put_le 4 off_checksum 0 p in
    let sum : ℕ = checksum cleared.bytes in
    ap checksum (rewrite_le p.bytes 4 off_checksum 0 sum 0)
    ∙ sym (
        read-put_le cleared (put_le-IsPage p v 4 off_checksum 0) 4 off_checksum sum (omega arith)
          (checksum-lt cleared.bytes))
