-- ===== src/Page/Ops.antt =====
-- crates/rdbms_page/src/lib.rs: the constructor and the methods on `&mut self`.
use rdbms.Prelude.{
  ℕ, zero, suc, ◌+◌, ◌-◌, ◌*◌, ◌%◌, ◌^◌, Bool, true, false, not, Option, none, some, List, [], ◌∷◌,
  ◌++◌, length, replicate, ltb, leb, if◌then◌else◌,
}
use rdbms.Core.{PageId, SlotId, ok, err, panicked, user, corruption, reject, checked_add, ok_or}
use rdbms.Exec.{Exec, pure, lift, gets, modify, ◌>>=◌, ◌>>◌}
use rdbms.Bytes.{splice, write_le}
use rdbms.Page.Format.{
  page_size, page_magic, page_version, header_size, slot_size, off_magic, off_version,
  off_page_type, off_page_id, off_page_lsn, off_free_start, off_free_end, off_slot_count,
  off_checksum, slot_live, slot_dead, PageType, to_u16, PageHeader, SlotEntry, is_live, Page,
  zeroed, checksum, slot_offset, slot_entry, header, find_dead_slot, read_record,
}

-- `self.bytes[at..at + data.len()].copy_from_slice(payload)`
unfoldable pub put_bytes : ℕ → List ℕ → Page → Page
put_bytes at payload p = record { bytes = splice p.bytes at payload }

unfoldable pub put_le : ℕ → ℕ → ℕ → Page → Page
put_le n offset value p = record { bytes = write_le n p.bytes offset value }

unfoldable pub refresh_checksum : Page → Page
refresh_checksum p =
    let cleared = put_le 4 off_checksum 0 p in
    put_le 4 off_checksum (checksum cleared.bytes) cleared

unfoldable pub new : PageId → PageType → Page
new page_id page_type =
    let p1 = put_le 4 off_magic page_magic zeroed in
    let p2 = put_le 2 off_version page_version p1 in
    let p3 = put_le 2 off_page_type (to_u16 page_type) p2 in
    let p4 = put_le 8 off_page_id page_id p3 in
    let p5 = put_le 8 off_page_lsn 0 p4 in
    let p6 = put_le 2 off_free_start header_size p5 in
    let p7 = put_le 2 off_free_end page_size p6 in refresh_checksum (put_le 2 off_slot_count 0 p7)

-- The three writes of `write_slot_entry`, at the offset of the slot.
unfoldable pub put_slot : ℕ → SlotEntry → Page → Page
put_slot offset slot p =
    put_le 2 (offset + 4) slot.flags
      (put_le 2 (offset + 2) slot.len (put_le 2 offset slot.offset p))

unfoldable pub write_slot_entry : ℕ → SlotEntry → Exec Page (Unit {0})
write_slot_entry slot_index slot = do
  offset ← lift (slot_offset slot_index)
  modify (put_slot offset slot)

-- The slot that `insert_record` writes: a dead one, or a new one at the end of the directory.
-- The `u16` product and sum wrap in a release build.
unfoldable pub claim_slot : PageHeader → Option ℕ → Exec Page ℕ
claim_slot h (some index) = pure index
claim_slot h none = do
  new_slot_count ←
      lift (if ltb (h.slot_count + 1) (2 ^ 16) then ok (h.slot_count + 1) else err user)
  modify (put_le 2 off_slot_count new_slot_count)
  modify (put_le 2 off_free_start ((header_size + new_slot_count * slot_size) % 2 ^ 16))
  pure h.slot_count

abbrev pub slot_bytes : Option ℕ → ℕ
slot_bytes none = slot_size
slot_bytes (some index) = 0

unfoldable pub insert_record : List ℕ → Exec Page SlotId
insert_record payload = do
  lift (reject (ltb 65535 (length payload)) user)
  h ← gets header
  reusable ← gets (λ p. find_dead_slot p h.slot_count 0)
  needed ← lift (checked_add (length payload) (slot_bytes reusable) user)
  lift (reject (ltb (h.free_end - h.free_start) needed) user)
  let new_offset = h.free_end - length payload
  modify (put_bytes new_offset payload)
  modify (put_le 2 off_free_end new_offset)
  slot_index ← claim_slot h reusable
  write_slot_entry slot_index
      (record { offset = new_offset; len = length payload; flags = slot_live })
  modify refresh_checksum
  pure slot_index

unfoldable pub delete_record : SlotId → Exec Page Bool
delete_record slot_id = do
  h ← gets header
  lift (reject (leb h.slot_count slot_id) user)
  slot ← gets (λ p. slot_entry p slot_id)
  if not (is_live slot) then pure false else do
    write_slot_entry slot_id (record slot { flags = slot_dead })
    modify refresh_checksum
    pure true

-- The first loop of `compact`: the live records, in slot order.
unfoldable pub live_records : ℕ → ℕ → List (ℕ × List ℕ) → Exec Page (List (ℕ × List ℕ))
live_records zero slot_index found = pure found
live_records (suc rounds) slot_index found = do
  slot ← gets (λ p. slot_entry p slot_index)
  let rest = live_records rounds (slot_index + 1)
  if not (is_live slot) then rest found else do
    stored ← gets (λ p. read_record p slot_index)
    stored_bytes ← lift (ok_or stored corruption)
    rest (found ++ ((slot_index, stored_bytes) ∷ []))

-- The second loop of `compact`. `free_end -= data.len()` panics below zero; a release build wraps
-- and panics at the slice that follows.
unfoldable pub place_records : ℕ → List (ℕ × List ℕ) → Exec Page ℕ
place_records free_end [] = pure free_end
place_records free_end ((slot_index, stored_bytes) ∷ rest) = do
  at ←
      lift (
        if ltb free_end (length stored_bytes)
        then panicked
        else ok (free_end - length stored_bytes))
  modify (put_bytes at stored_bytes)
  write_slot_entry slot_index (record { offset = at; len = length stored_bytes; flags = slot_live })
  place_records at rest

unfoldable pub compact : Exec Page (Unit {0})
compact = do
  h ← gets header
  records ← live_records h.slot_count 0 []
  let free_start = header_size + h.slot_count * slot_size
  modify (put_bytes free_start (replicate (page_size - free_start) 0))
  free_end ← place_records page_size records
  modify (put_le 2 off_free_end free_end)
  modify refresh_checksum
