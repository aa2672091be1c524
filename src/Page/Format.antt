-- ===== src/Page/Format.antt =====
-- crates/rdbms_page/src/lib.rs: the layout of a page and the methods on `&self`.
-- Every offset below is in range for a buffer of `page_size` bytes, so no read can panic.
use rdbms.Prelude.{
  ℕ, zero, suc, ◌+◌, ◌-◌, ◌*◌, ◌%◌, ◌^◌, ◌≡◌, Bool, not, ◌&&◌, ◌||◌, Option, none, some, List, [],
  ◌∷◌, length, replicate, All, ltb, leb, ◌==◌, if◌then◌else◌,
}
use rdbms.Core.{
  PageId, Lsn, SlotId, DbResult, ok, err, user, corruption, reject, checked_add, ◌>>=◌, ◌>>◌,
}
use rdbms.Bytes.{IsByte, slice, read_le, write_le}

abbrev pub page_size : ℕ
page_size = 4096

abbrev pub page_magic : ℕ
page_magic = 0x5244_4250

abbrev pub page_version : ℕ
page_version = 1

abbrev pub header_size : ℕ
header_size = 34

abbrev pub slot_size : ℕ
slot_size = 6

abbrev pub off_magic : ℕ
off_magic = 0

abbrev pub off_version : ℕ
off_version = 4

abbrev pub off_page_type : ℕ
off_page_type = 6

abbrev pub off_page_id : ℕ
off_page_id = 8

abbrev pub off_page_lsn : ℕ
off_page_lsn = 16

abbrev pub off_free_start : ℕ
off_free_start = 24

abbrev pub off_free_end : ℕ
off_free_end = 26

abbrev pub off_slot_count : ℕ
off_slot_count = 28

abbrev pub off_checksum : ℕ
off_checksum = 30

abbrev pub slot_unused : ℕ
slot_unused = 0

abbrev pub slot_live : ℕ
slot_live = 1

abbrev pub slot_dead : ℕ
slot_dead = 2

pub data PageType : Type 0 where
  file_header heap catalog free_map index : PageType

unfoldable pub to_u16 : PageType → ℕ
to_u16 file_header = 1
to_u16 heap = 2
to_u16 catalog = 3
to_u16 free_map = 4
to_u16 index = 5

unfoldable pub from_u16 : ℕ → DbResult PageType
from_u16 value =
    if value == 1
    then ok file_header
    else if value == 2
    then ok heap
    else if value == 3
    then ok catalog
    else if value == 4
    then ok free_map
    else if value == 5
    then ok index
    else err corruption

pub record PageHeader : Type 0 where
  pub page_id : PageId
  pub page_lsn : Lsn
  pub page_type : PageType
  pub free_start : ℕ
  pub free_end : ℕ
  pub slot_count : ℕ
  pub checksum : ℕ

pub record SlotEntry : Type 0 where
  pub offset : ℕ
  pub len : ℕ
  pub flags : ℕ

abbrev pub is_live : SlotEntry → Bool
is_live slot = slot.flags == slot_live

abbrev pub is_dead : SlotEntry → Bool
is_dead slot = slot.flags == slot_dead

pub record Page : Type 0 where
  pub bytes : List ℕ

-- What the type `[u8; PAGE_SIZE]` says of the buffer.
pub record IsPage (p : Page) : Type 0 where
  pub sized : length p.bytes ≡ page_size
  pub in_range : All IsByte p.bytes

unfoldable pub zeroed : Page
zeroed = record { bytes = replicate page_size 0 }

unfoldable pub checksum_from : ℕ → List ℕ → ℕ
checksum_from acc [] = acc
checksum_from acc (byte ∷ bytes) = checksum_from ((acc + byte) % 2 ^ 32) bytes

unfoldable pub checksum : List ℕ → ℕ
checksum bytes = checksum_from 0 bytes

unfoldable pub validate_checksum : List ℕ → ℕ → DbResult (Unit {0})
validate_checksum bytes expected = if checksum bytes == expected then ok tt else err corruption

unfoldable pub validate_page_checksum : List ℕ → DbResult (Unit {0})
validate_page_checksum bytes =
    validate_checksum (write_le 4 bytes off_checksum 0) (read_le 4 bytes off_checksum)

unfoldable pub slot_offset : ℕ → DbResult ℕ
slot_offset slot_index = do
  offset ← checked_add header_size (slot_index * slot_size) corruption
  reject (ltb page_size (offset + slot_size)) corruption
  ok offset

unfoldable pub slot_entry : Page → ℕ → DbResult SlotEntry
slot_entry p slot_index = do
  offset ← slot_offset slot_index
  ok (record {
    offset = read_le 2 p.bytes offset;
    len = read_le 2 p.bytes (offset + 2);
    flags = read_le 2 p.bytes (offset + 4);
  })

unfoldable pub header : Page → DbResult PageHeader
header p = do
  reject (not (read_le 4 p.bytes off_magic == page_magic)) corruption
  reject (not (read_le 2 p.bytes off_version == page_version)) corruption
  let free_start = read_le 2 p.bytes off_free_start
  let free_end = read_le 2 p.bytes off_free_end
  let slot_count = read_le 2 p.bytes off_slot_count
  reject (not (free_start == header_size + slot_count * slot_size)) corruption
  reject (ltb free_end free_start || ltb page_size free_end) corruption
  page_type ← from_u16 (read_le 2 p.bytes off_page_type)
  ok (record {
    page_id = read_le 8 p.bytes off_page_id;
    page_lsn = read_le 8 p.bytes off_page_lsn;
    page_type = page_type;
    free_start = free_start;
    free_end = free_end;
    slot_count = slot_count;
    checksum = read_le 4 p.bytes off_checksum;
  })

-- The body of the loop of `validate`.
unfoldable pub validate_slot : Page → PageHeader → ℕ → DbResult (Unit {0})
validate_slot p h slot_index = do
  slot ← slot_entry p slot_index
  reject
      (not (slot.flags == slot_unused)
        && (not (slot.flags == slot_live) && not (slot.flags == slot_dead)))
      corruption
  if not (is_live slot) then ok tt else do
    end ← checked_add slot.offset slot.len corruption
    reject (ltb slot.offset h.free_end || ltb page_size end) corruption

-- The loops over slots take the number of rounds left and the index of the next slot.
unfoldable pub validate_slots : Page → PageHeader → ℕ → ℕ → DbResult (Unit {0})
validate_slots p h zero slot_index = ok tt
validate_slots p h (suc rounds) slot_index = do
  validate_slot p h slot_index
  validate_slots p h rounds (slot_index + 1)

unfoldable pub validate : Page → DbResult (Unit {0})
validate p = do h ← header p; validate_page_checksum p.bytes; validate_slots p h h.slot_count 0

unfoldable pub from_bytes : List ℕ → DbResult Page
from_bytes bytes = do validate (record { bytes = bytes }); ok (record { bytes = bytes })

unfoldable pub find_dead_slot : Page → ℕ → ℕ → DbResult (Option ℕ)
find_dead_slot p zero slot_index = ok none
find_dead_slot p (suc rounds) slot_index = do
  slot ← slot_entry p slot_index
  let rest = find_dead_slot p rounds (slot_index + 1)
  if is_dead slot then ok (some slot_index) else rest

unfoldable pub read_record : Page → SlotId → DbResult (Option (List ℕ))
read_record p slot_id = do
  h ← header p
  reject (leb h.slot_count slot_id) user
  slot ← slot_entry p slot_id
  if not (is_live slot) then ok none else do
    end ← checked_add slot.offset slot.len corruption
    reject (ltb page_size end) corruption
    ok (some (slice p.bytes slot.offset slot.len))

unfoldable pub count_live : Page → ℕ → ℕ → ℕ → DbResult ℕ
count_live p zero slot_index count = ok count
count_live p (suc rounds) slot_index count = do
  slot ← slot_entry p slot_index
  count_live p rounds (slot_index + 1) (if is_live slot then count + 1 else count)

unfoldable pub live_record_count : Page → DbResult ℕ
live_record_count p = do h ← header p; count_live p h.slot_count 0 0

unfoldable pub free_space : Page → DbResult ℕ
free_space p = do h ← header p; ok (h.free_end - h.free_start)
