-- ===== src/Page/Runs.antt =====
-- The page theorems at concrete pages, and small runs.
use rdbms.Prelude.{◌-◌, ◌<◌, ◌≡◌, ◌↔◌, refl, arith, some, List, [], ◌∷◌, replicate, take, drop}
use rdbms.Core.{ok, panicked}
use rdbms.Bytes.{read_le, write_le, slice, splice, to_le_bytes, from_le_bytes}
use rdbms.Page.Format.{
  validate_page_checksum, validate_checksum, validate_slots, validate_slot, header, slot_entry,
  slot_offset, from_u16, to_u16, checksum, checksum_from, SlotEntry, page_size, PageType, heap,
  Page, IsPage, read_record, validate, find_dead_slot, zeroed,
}
use rdbms.Page.Ops
use rdbms.Page.Ops.{new, compact, insert_record}
use rdbms.Page.Shape.{page_id, free_start, free_end, slot_count, IsWellFormed, validate_iff, entry}
use rdbms.Page.Frame.{put_le-IsPage, put_slot-IsPage, refresh-IsPage}
use rdbms.Page.Compact.Collect.{lives, total}
use rdbms.Page.New.{new-IsWellFormed}
use rdbms.Page.Insert.{InsertOutcome, insert_record_total}
use rdbms.Page.Delete.{DeleteOutcome, delete_record_total}
use rdbms.Page.Compact.{Compacted, live_bytes, compact_ok, compact_panics}
use rdbms.Page.Packed.{
  Call, insert, delete, call, run, IsSound, IsPacked-room, run-IsSound, new-IsSound, run-new_sound,
}

abbrev calls : List Call
calls = insert (1 ∷ 2 ∷ 3 ∷ []) ∷ insert (4 ∷ 5 ∷ []) ∷ delete 0 ∷ []

-- Two records, the first of them deleted.
sample : Page
sample = run calls (new 7 heap)

sample-IsSound : IsSound sample heap
unfolding sample
sample-IsSound =
    run-IsSound calls (new 7 heap) heap (omega arith) (new-IsSound 7 heap (omega arith))

sample_slot : read_record sample 1 ≡ ok (some (4 ∷ 5 ∷ []))
unfolding sample run call new insert_record Ops.delete_record Ops.claim_slot Ops.write_slot_entry
    Ops.put_slot Ops.put_le Ops.put_bytes Ops.refresh_checksum zeroed header find_dead_slot
    read_record slot_entry slot_offset from_u16 to_u16 checksum checksum_from read_le write_le slice
    splice to_le_bytes from_le_bytes take drop replicate
sample_slot = refl

new-IsWellFormed_example :
    IsWellFormed (new 7 heap) heap
    × (page_id (new 7 heap) ≡ 7)
    × (slot_count (new 7 heap) ≡ 0)
    × (free_end (new 7 heap) - free_start (new 7 heap) ≡ page_size - 34)
new-IsWellFormed_example = new-IsWellFormed 7 heap (omega arith)

validate_iff_example : (validate sample ≡ ok tt) ↔ ((t : PageType) × IsWellFormed sample t)
validate_iff_example = validate_iff sample sample-IsSound.well.page

insert_record_total_example : InsertOutcome sample heap (9 ∷ [])
insert_record_total_example =
    insert_record_total sample heap sample-IsSound.well (9 ∷ []) (omega arith)

delete_record_total_example : DeleteOutcome sample heap 1
delete_record_total_example = delete_record_total sample heap sample-IsSound.well 1

run-new_sound_example :
    (validate sample ≡ ok tt)
    × ((q : Page) × (compact sample ≡ (ok tt, q)) × Compacted sample q heap)
unfolding sample
run-new_sound_example = run-new_sound 7 heap calls (omega arith) (omega arith)

-- Two live slots over the same 3000 bytes.
overlapping : Page
overlapping =
    let big : SlotEntry = record { offset = 1000; len = 3000; flags = 1 } in
    let headed = Ops.put_le 2 24 46 (Ops.put_le 2 26 1000 (Ops.put_le 2 28 2 (new 7 heap))) in
    Ops.refresh_checksum (Ops.put_slot 40 big (Ops.put_slot 34 big headed))

overlapping-IsPage : IsPage overlapping
unfolding overlapping
overlapping-IsPage =
    let v = (new-IsWellFormed 7 heap (omega arith)).0.page in
    let v1 = put_le-IsPage _ v 2 28 2 in
    let v2 = put_le-IsPage _ v1 2 26 1000 in
    let v3 = put_le-IsPage _ v2 2 24 46 in
    let v4 = put_slot-IsPage _ v3 34 _ in refresh-IsPage _ (put_slot-IsPage _ v4 40 _)

overlapping-IsWellFormed : (t : PageType) × IsWellFormed overlapping t
unfolding overlapping new Ops.put_slot Ops.put_le Ops.put_bytes Ops.refresh_checksum zeroed header
    validate validate_page_checksum validate_checksum validate_slots validate_slot slot_entry
    slot_offset from_u16 to_u16 checksum checksum_from read_le write_le slice splice to_le_bytes
    from_le_bytes take drop replicate
overlapping-IsWellFormed = (validate_iff overlapping overlapping-IsPage).0 refl

overlapping_many : page_size < live_bytes overlapping
unfolding overlapping new Ops.put_slot Ops.put_le Ops.put_bytes Ops.refresh_checksum zeroed to_u16
    checksum checksum_from read_le write_le slice splice to_le_bytes from_le_bytes take drop
    replicate lives total entry
overlapping_many = omega arith

compact_panics_example : (compact overlapping).0 ≡ panicked
compact_panics_example =
    compact_panics overlapping overlapping-IsWellFormed.0 overlapping-IsWellFormed.1
      overlapping_many

compact_ok_example : (q : Page) × (compact sample ≡ (ok tt, q)) × Compacted sample q heap
compact_ok_example =
    let s = sample-IsSound in compact_ok sample heap s.well (IsPacked-room s.well s.packed)
