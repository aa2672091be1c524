-- ===== src/Page/Lookup.antt =====
-- Reading slots of a well-formed page: `read_record` and `find_dead_slot`.
use rdbms.Prelude.{
  ℕ, zero, suc, ◌+◌, ◌-◌, ◌≤◌, ◌<◌, ◌≡◌, ◌≢◌, refl, arith, false, ◌==◌, if◌then◌else◌, Option, none,
  some, List, inl, inr, Bool-cases, ==_iff,
}
use rdbms.Core.{ok, err, user}
use rdbms.Bytes.{slice}
use rdbms.Page.Format.{
  page_size, slot_dead, PageType, SlotEntry, is_live, is_dead, Page, find_dead_slot, read_record,
  free_space,
}
use rdbms.Page.Shape.{
  free_start, free_end, slot_count, slot_at, entry, IsWellFormed, header_ok, slot_entry_ok,
  slot_in_page, entry_bounds,
}

-- What a slot holds: the bytes of a live record.
abbrev pub held : Page → SlotEntry → Option (List ℕ)
held p e = if is_live e then some (slice p.bytes e.offset e.len) else none

module _ {p : Page} {t : PageType} (w : IsWellFormed p t) where
  -- On a well-formed page a read of a slot in the directory always succeeds.
  pub read_record-held : (i : ℕ) → i < slot_count p → read_record p i ≡ ok (held p (entry p i))
  unfolding read_record
  read_record-held i h =
      rw (header_ok p w.formatted, slot_entry_ok p i (slot_in_page i w.formatted h))
        (ground
          (arith, entry_bounds p i w.page (slot_in_page i w.formatted h), (w.slots i h).inside))

  pub read_record_outside : (i : ℕ) → slot_count p ≤ i → read_record p i ≡ err user
  unfolding read_record
  read_record_outside i h = rw (header_ok p w.formatted) (ground arith)

  pub free_space_lem : free_space p ≡ ok (free_end p - free_start p)
  unfolding free_space
  free_space_lem = rw (header_ok p w.formatted)

-- The answer of `find_dead_slot` over the slots from i to i + n.
abbrev pub Found : Page → ℕ → ℕ → Option ℕ → Type 0
Found p n i none = (j : ℕ) → i ≤ j → j < i + n → (entry p j).flags ≢ slot_dead
Found p n i (some k) = (i ≤ k) × (k < i + n) × ((entry p k).flags ≡ slot_dead)

Found-suc :
    (p : Page) (n i : ℕ) (o : Option ℕ)
    → is_dead (entry p i) ≡ false
    → Found p n (i + 1) o
    → Found p (suc n) i o
Found-suc p n i none e f = λ j a b. elim (Bool-cases (i == j)) [
  | inl same ↦ let e' : i ≡ j = (==_iff i j).0 same in rw (← e') (ground arith)
  | inr other ↦ f j (ground arith) (omega arith)
]
Found-suc p n i (some k) e f = omega arith

find_dead_from :
    (p : Page) (n i : ℕ)
    → slot_at (i + n) ≤ page_size
    → (o : Option ℕ) × (find_dead_slot p n i ≡ ok o) × Found p n i o
unfolding find_dead_slot
find_dead_from p zero i h = (none, refl, λ j a b. absurd (omega arith))
find_dead_from p (suc n) i h = elim (Bool-cases (is_dead (entry p i))) [
  | inl dead ↦
      (some i, rw (slot_entry_ok p i (omega arith), dead), (omega arith, omega arith, ground arith))
  | inr other ↦
      let (o, e, f) = find_dead_from p n (i + 1) (omega arith) in
      (o, rw (slot_entry_ok p i (omega arith), other) e, Found-suc p n i o other f)
]

-- On a well-formed page the search for a dead slot succeeds: it finds a dead slot of the directory,
-- or there is none.
pub find_dead_slot_lem :
    {p : Page} {t : PageType}
    → IsWellFormed p t
    → (o : Option ℕ) × (find_dead_slot p (slot_count p) 0 ≡ ok o) × Found p (slot_count p) 0 o
find_dead_slot_lem {p} w = find_dead_from p (slot_count p) 0 (omega (arith, w.formatted))
