-- ===== src/Page/SlotWrite.antt =====
-- `write_slot_entry` followed by `refresh_checksum`, the last steps of each page method.
use rdbms.Prelude.{ℕ, suc, ◌≤◌, ◌<◌, ◌^◌, ◌≡◌, ◌≢◌, ◌∙◌, arith, inl, inr, Bool-cases, ltb, ltb→lt}
use rdbms.Page.Format.{page_size, slot_size, SlotEntry, Page, IsPage}
use rdbms.Page.Ops.{refresh_checksum, put_slot}
use rdbms.Page.Shape.{slot_at, entry}
use rdbms.Page.Frame.{
  AgreeOn, Outside, AgreeOn-trans, agree_entry, agree-refresh, agree-put_slot, refresh-IsPage,
  put_slot-IsPage, entry-put_slot,
}

pub slots_apart : (i j : ℕ) → j ≢ i → Outside (slot_at j) (slot_at (suc j)) (slot_at i) slot_size
slots_apart i j ne = elim (Bool-cases (ltb i j)) [
  | inl above ↦ inr (omega (arith, ltb→lt i j above))
  | inr below ↦ inl (ground arith)
]

abbrev pub with_slot : Page → ℕ → SlotEntry → Page
with_slot b i e = refresh_checksum (put_slot (slot_at i) e b)

module _ (b : Page) (i : ℕ) (e : SlotEntry) where
  -- The page before `refresh_checksum`.
  abbrev slotted : Page
  slotted = put_slot (slot_at i) e b

  pub agree_low : AgreeOn (with_slot b i e) b 0 30
  agree_low =
      AgreeOn-trans (with_slot b i e) slotted b 0 30 (agree-refresh slotted 0 30 (omega arith))
        (agree-put_slot b 0 30 (slot_at i) e (omega arith))

  pub agree_high : (n : ℕ) → i < n → AgreeOn (with_slot b i e) b (slot_at n) page_size
  agree_high n h =
      AgreeOn-trans (with_slot b i e) slotted b (slot_at n) page_size
        (agree-refresh slotted (slot_at n) page_size (omega arith))
        (agree-put_slot b (slot_at n) page_size (slot_at i) e (omega arith))

  pub other_slot : (j : ℕ) → j ≢ i → entry (with_slot b i e) j ≡ entry b j
  other_slot j ne =
      agree_entry (with_slot b i e) slotted j
        (agree-refresh slotted (slot_at j) (slot_at (suc j)) (omega arith))
      ∙ agree_entry slotted b j
          (agree-put_slot b (slot_at j) (slot_at (suc j)) (slot_at i) e (slots_apart i j ne))

  module _ (v : IsPage b) where
    pub with_slot-IsPage : IsPage (with_slot b i e)
    with_slot-IsPage = refresh-IsPage slotted (put_slot-IsPage b v (slot_at i) e)

    pub same_slot :
        slot_at (suc i) ≤ page_size
        → e.offset < 2 ^ 16
        → e.len < 2 ^ 16
        → e.flags < 2 ^ 16
        → entry (with_slot b i e) i ≡ e
    same_slot fits ho hl hf =
        agree_entry (with_slot b i e) slotted i
          (agree-refresh slotted (slot_at i) (slot_at (suc i)) (omega arith))
        ∙ entry-put_slot b v i e fits ho hl hf
