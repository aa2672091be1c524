-- ===== src/Page/Shape.antt =====
-- What `header`, `slot_entry` and `validate` accept, as predicates on the bytes of a page.
use mathlib.Core.Path.{subst}
use rdbms.Prelude.{
  ℕ, zero, suc, ◌+◌, ◌*◌, ◌^◌, ◌≤◌, ◌<◌, ◌≡◌, refl, arith, ◌==◌, ◌↔◌, ◌⊎◌, inl, inr, Bool-cases,
  ==_iff,
}
use rdbms.Core.{ok, bind_inv}
use rdbms.Bytes.{read_le, write_le}
use rdbms.Bytes.Words.{read_le-lt}
use rdbms.Page.Format.{
  page_size, page_magic, page_version, header_size, slot_size, off_magic, off_version,
  off_page_type, off_page_id, off_page_lsn, off_free_start, off_free_end, off_slot_count,
  off_checksum, slot_unused, slot_live, slot_dead, PageType, from_u16, PageHeader, SlotEntry, Page,
  IsPage, checksum, validate_checksum, validate_page_checksum, slot_offset, slot_entry, header,
  validate_slot, validate_slots, validate,
}

abbrev pub page_id : Page → ℕ
page_id p = read_le 8 p.bytes off_page_id

abbrev pub free_start : Page → ℕ
free_start p = read_le 2 p.bytes off_free_start

abbrev pub free_end : Page → ℕ
free_end p = read_le 2 p.bytes off_free_end

abbrev pub slot_count : Page → ℕ
slot_count p = read_le 2 p.bytes off_slot_count

-- Where slot i stands.
abbrev pub slot_at : ℕ → ℕ
slot_at i = header_size + i * slot_size

unfoldable pub entry : Page → ℕ → SlotEntry
entry p i = record {
  offset = read_le 2 p.bytes (slot_at i);
  len = read_le 2 p.bytes (slot_at i + 2);
  flags = read_le 2 p.bytes (slot_at i + 4);
}

abbrev pub header_of : Page → PageType → PageHeader
header_of p page_type = record {
  page_id = read_le 8 p.bytes off_page_id;
  page_lsn = read_le 8 p.bytes off_page_lsn;
  page_type = page_type;
  free_start = free_start p;
  free_end = free_end p;
  slot_count = slot_count p;
  checksum = read_le 4 p.bytes off_checksum;
}

-- A header that `header` accepts.
pub record IsFormatted (p : Page) (page_type : PageType) : Type 0 where
  pub magic : read_le 4 p.bytes off_magic ≡ page_magic
  pub version : read_le 2 p.bytes off_version ≡ page_version
  pub directory : free_start p ≡ slot_at (slot_count p)
  pub room : free_start p ≤ free_end p
  pub within : free_end p ≤ page_size
  pub kind : from_u16 (read_le 2 p.bytes off_page_type) ≡ ok page_type

pub header_ok : (p : Page) {t : PageType} → IsFormatted p t → header p ≡ ok (header_of p t)
unfolding header
header_ok p f = ground arith

pub header_inv :
    (p : Page) (h : PageHeader)
    → header p ≡ ok h
    → IsFormatted p h.page_type × (h ≡ header_of p h.page_type)
unfolding header
header_inv p h e = ground arith

-- A slot that `validate` accepts: a known flag, and a live record inside the record area.
pub record IsSlot (p : Page) (slot : SlotEntry) : Type 0 where
  pub flag : (slot.flags ≡ slot_unused) ⊎ ((slot.flags ≡ slot_live) ⊎ (slot.flags ≡ slot_dead))
  pub above : slot.flags ≡ slot_live → free_end p ≤ slot.offset
  pub inside : slot.flags ≡ slot_live → slot.offset + slot.len ≤ page_size

pub slot_entry_ok :
    (p : Page) (i : ℕ) → slot_at (suc i) ≤ page_size → slot_entry p i ≡ ok (entry p i)
unfolding slot_entry slot_offset entry
slot_entry_ok p i h = ground arith

-- Everything that `validate` checks.
pub record IsWellFormed (p : Page) (page_type : PageType) : Type 0 where
  pub page : IsPage p
  pub formatted : IsFormatted p page_type
  pub checked : checksum (write_le 4 p.bytes off_checksum 0) ≡ read_le 4 p.bytes off_checksum
  pub slots : (i : ℕ) → i < slot_count p → IsSlot p (entry p i)

pub slot_in_page :
    {p : Page} {t : PageType} (i : ℕ)
    → IsFormatted p t
    → i < slot_count p
    → slot_at (suc i) ≤ page_size
slot_in_page i f h = omega arith

module _ (p : Page) where
  pub entry_bounds :
      (i : ℕ)
      → IsPage p
      → slot_at (suc i) ≤ page_size
      → ((entry p i).offset < 2 ^ 16) × ((entry p i).len < 2 ^ 16)
  unfolding entry
  entry_bounds i v h = (
    read_le-lt 2 p.bytes (slot_at i) (omega arith) v.in_range,
    read_le-lt 2 p.bytes (slot_at i + 2) (omega arith) v.in_range,
  )

module _ (p : Page) (t : PageType) where
  validate_slot_ok :
      (i : ℕ)
      → IsPage p
      → slot_at (suc i) ≤ page_size
      → IsSlot p (entry p i)
      → validate_slot p (header_of p t) i ≡ ok tt
  unfolding validate_slot
  validate_slot_ok i v h s = rw (slot_entry_ok p i h) (ground (arith, entry_bounds p i v h))

  validate_slot_inv :
      (i : ℕ)
      → slot_at (suc i) ≤ page_size
      → validate_slot p (header_of p t) i ≡ ok tt
      → IsSlot p (entry p i)
  unfolding validate_slot
  validate_slot_inv i h e = ground (arith, slot_entry_ok p i h)

  validate_slots_ok :
      (n i : ℕ)
      → ((j : ℕ) → i ≤ j → j < i + n → validate_slot p (header_of p t) j ≡ ok tt)
      → validate_slots p (header_of p t) n i ≡ ok tt
  unfolding validate_slots
  validate_slots_ok zero i h = refl
  validate_slots_ok (suc n) i h =
      rw (h i (omega arith) (omega arith))
        (validate_slots_ok n (i + 1) (λ j a b. h j (omega arith) (omega arith)))

  validate_slots_inv :
      (n i j : ℕ)
      → validate_slots p (header_of p t) n i ≡ ok tt
      → i ≤ j
      → j < i + n
      → validate_slot p (header_of p t) j ≡ ok tt
  unfolding validate_slots
  validate_slots_inv zero i j e a b = absurd (omega arith)
  validate_slots_inv (suc n) i j e a b =
      let (u, first, rest) =
        bind_inv (validate_slot p (header_of p t) i)
          (λ _. validate_slots p (header_of p t) n (i + 1)) e in
      elim (Bool-cases (i == j)) [
        | inl same ↦ let e' : i ≡ j = (==_iff i j).0 same in rw (← e') first
        | inr later ↦ validate_slots_inv n (i + 1) j rest (ground arith) (omega arith)
      ]

  validate_page_checksum_iff :
      (validate_page_checksum p.bytes ≡ ok tt)
      ↔ (checksum (write_le 4 p.bytes off_checksum 0) ≡ read_le 4 p.bytes off_checksum)
  unfolding validate_page_checksum validate_checksum
  validate_page_checksum_iff = (λ e. ground arith, λ e. ground arith)

  -- `validate` succeeds on every well-formed page.
  pub validate_ok : IsWellFormed p t → validate p ≡ ok tt
  unfolding validate
  validate_ok w =
      rw (header_ok p w.formatted, validate_page_checksum_iff.1 w.checked)
        (validate_slots_ok (slot_count p) 0 (λ j a b.
          validate_slot_ok j w.page (slot_in_page j w.formatted (omega arith))
            (w.slots j (omega arith))))

-- What `validate` accepts is well formed, at the type that the header names.
pub validate_inv :
    (p : Page)
    → IsPage p
    → validate p ≡ ok tt
    → (t : PageType) × (header p ≡ ok (header_of p t)) × IsWellFormed p t
unfolding validate
validate_inv p v e =
    let (h, is_header, rest) = bind_inv (header p) _ e in
    let (u, sums, loop) = bind_inv (validate_page_checksum p.bytes) _ rest in
    let (f, same) = header_inv p h is_header in
    let t = h.page_type in
    let loop' : validate_slots p (header_of p t) (slot_count p) 0 ≡ ok tt =
      subst (λ g. validate_slots p g g.slot_count 0 ≡ ok tt) same loop in
    (
      t,
      header_ok p f,
      record {
        page = v;
        formatted = f;
        checked = (validate_page_checksum_iff p t).0 sums;
        slots = λ i lt.
            validate_slot_inv p t i (slot_in_page i f lt)
              (validate_slots_inv p t (slot_count p) 0 i loop' (omega arith) (omega arith));
      },
    )

-- `validate` succeeds exactly on the pages that are well formed at some page type: a header with
-- the magic, the version, a known type and consistent bounds, the right checksum, and every slot of
-- the directory with a known flag and, if live, inside the record area.
pub validate_iff :
    (p : Page) → IsPage p → (validate p ≡ ok tt) ↔ ((t : PageType) × IsWellFormed p t)
validate_iff p v = (λ e. let (t, _, w) = validate_inv p v e in (t, w), λ (t, w). validate_ok p t w)
