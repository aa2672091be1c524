-- ===== src/Page/New.antt =====
-- `Page::new` of crates/rdbms_page/src/lib.rs: a fresh page is well formed and empty.
use rdbms.Prelude.{◌-◌, ◌^◌, ◌<◌, ◌≡◌, refl, ◌∙◌, arith, length-replicate, All-replicate, inl}
use rdbms.Core.{PageId, ok}
use rdbms.Bytes.{IsByte, read_le}
use rdbms.Page.Format.{
  page_size, page_magic, page_version, header_size, off_magic, off_version, off_page_type,
  off_page_id, off_page_lsn, off_free_start, off_free_end, off_slot_count, PageType, to_u16,
  from_u16, Page, IsPage, zeroed,
}
use rdbms.Page.Format
use rdbms.Page.Ops.{put_le, refresh_checksum, new}
use rdbms.Page.Shape.{page_id, free_start, free_end, slot_count, IsWellFormed}
use rdbms.Page.Frame.{
  AgreeOn, agree_read, agree-put_le, agree-refresh, put_le-IsPage, read-put_le, refresh-IsPage,
  refresh-checked,
}

zeroed-IsPage : IsPage zeroed
unfolding zeroed
zeroed-IsPage = record {
  sized = length-replicate page_size 0;
  in_range = All-replicate IsByte page_size 0 (omega arith);
}

-- Every page type is read back from its number.
pub from-to_u16 : (t : PageType) → from_u16 (to_u16 t) ≡ ok t
unfolding to_u16 from_u16
from-to_u16 Format.file_header = refl
from-to_u16 Format.heap = refl
from-to_u16 Format.catalog = refl
from-to_u16 Format.free_map = refl
from-to_u16 Format.index = refl

to_u16-lt : (t : PageType) → to_u16 t < 2 ^ 16
unfolding to_u16
to_u16-lt t = ground arith

module _ (id : PageId) (t : PageType) where
  abbrev p_magic : Page
  p_magic = put_le 4 off_magic page_magic zeroed

  abbrev p_version : Page
  p_version = put_le 2 off_version page_version p_magic

  abbrev p_page_type : Page
  p_page_type = put_le 2 off_page_type (to_u16 t) p_version

  abbrev p_page_id : Page
  p_page_id = put_le 8 off_page_id id p_page_type

  abbrev p_page_lsn : Page
  p_page_lsn = put_le 8 off_page_lsn 0 p_page_id

  abbrev p_free_start : Page
  p_free_start = put_le 2 off_free_start header_size p_page_lsn

  abbrev p_free_end : Page
  p_free_end = put_le 2 off_free_end page_size p_free_start

  abbrev p_slot_count : Page
  p_slot_count = put_le 2 off_slot_count 0 p_free_end

  abbrev fresh : Page
  fresh = refresh_checksum p_slot_count

  p_magic-IsPage : IsPage p_magic
  p_magic-IsPage = put_le-IsPage zeroed zeroed-IsPage 4 off_magic page_magic

  p_version-IsPage : IsPage p_version
  p_version-IsPage = put_le-IsPage p_magic p_magic-IsPage 2 off_version page_version

  p_page_type-IsPage : IsPage p_page_type
  p_page_type-IsPage = put_le-IsPage p_version p_version-IsPage 2 off_page_type (to_u16 t)

  p_page_id-IsPage : IsPage p_page_id
  p_page_id-IsPage = put_le-IsPage p_page_type p_page_type-IsPage 8 off_page_id id

  p_page_lsn-IsPage : IsPage p_page_lsn
  p_page_lsn-IsPage = put_le-IsPage p_page_id p_page_id-IsPage 8 off_page_lsn 0

  p_free_start-IsPage : IsPage p_free_start
  p_free_start-IsPage = put_le-IsPage p_page_lsn p_page_lsn-IsPage 2 off_free_start header_size

  p_free_end-IsPage : IsPage p_free_end
  p_free_end-IsPage = put_le-IsPage p_free_start p_free_start-IsPage 2 off_free_end page_size

  p_slot_count-IsPage : IsPage p_slot_count
  p_slot_count-IsPage = put_le-IsPage p_free_end p_free_end-IsPage 2 off_slot_count 0

  keep_slot_count : AgreeOn fresh p_slot_count 0 30
  keep_slot_count = agree-refresh p_slot_count 0 30 (omega arith)

  keep_free_end : AgreeOn fresh p_free_end 0 off_slot_count
  keep_free_end s n lo hi =
      keep_slot_count s n lo (omega arith)
      ∙ agree-put_le p_free_end 0 off_slot_count 2 off_slot_count 0 (inl (omega arith)) s n lo hi

  keep_free_start : AgreeOn fresh p_free_start 0 off_free_end
  keep_free_start s n lo hi =
      keep_free_end s n lo (omega arith)
      ∙ agree-put_le p_free_start 0 off_free_end 2 off_free_end page_size (inl (omega arith)) s n lo
          hi

  keep_page_lsn : AgreeOn fresh p_page_lsn 0 off_free_start
  keep_page_lsn s n lo hi =
      keep_free_start s n lo (omega arith)
      ∙ agree-put_le p_page_lsn 0 off_free_start 2 off_free_start header_size (inl (omega arith)) s
          n lo hi

  keep_page_id : AgreeOn fresh p_page_id 0 off_page_lsn
  keep_page_id s n lo hi =
      keep_page_lsn s n lo (omega arith)
      ∙ agree-put_le p_page_id 0 off_page_lsn 8 off_page_lsn 0 (inl (omega arith)) s n lo hi

  keep_page_type : AgreeOn fresh p_page_type 0 off_page_id
  keep_page_type s n lo hi =
      keep_page_id s n lo (omega arith)
      ∙ agree-put_le p_page_type 0 off_page_id 8 off_page_id id (inl (omega arith)) s n lo hi

  keep_version : AgreeOn fresh p_version 0 off_page_type
  keep_version s n lo hi =
      keep_page_type s n lo (omega arith)
      ∙ agree-put_le p_version 0 off_page_type 2 off_page_type (to_u16 t) (inl (omega arith)) s n lo
          hi

  keep_magic : AgreeOn fresh p_magic 0 off_version
  keep_magic s n lo hi =
      keep_version s n lo (omega arith)
      ∙ agree-put_le p_magic 0 off_version 2 off_version page_version (inl (omega arith)) s n lo hi

  fresh_magic : read_le 4 fresh.bytes off_magic ≡ page_magic
  fresh_magic =
      agree_read fresh p_magic 0 off_version off_magic 4 keep_magic (omega arith) (omega arith)
      ∙ read-put_le zeroed zeroed-IsPage 4 off_magic page_magic (omega arith) (omega arith)

  fresh_version : read_le 2 fresh.bytes off_version ≡ page_version
  fresh_version =
      agree_read fresh p_version 0 off_page_type off_version 2 keep_version (omega arith)
        (omega arith)
      ∙ read-put_le p_magic p_magic-IsPage 2 off_version page_version (omega arith) (omega arith)

  fresh_page_type : read_le 2 fresh.bytes off_page_type ≡ to_u16 t
  fresh_page_type =
      agree_read fresh p_page_type 0 off_page_id off_page_type 2 keep_page_type (omega arith)
        (omega arith)
      ∙ read-put_le p_version p_version-IsPage 2 off_page_type (to_u16 t) (omega arith)
          (to_u16-lt t)

  fresh_page_id : id < 2 ^ 64 → read_le 8 fresh.bytes off_page_id ≡ id
  fresh_page_id small =
      agree_read fresh p_page_id 0 off_page_lsn off_page_id 8 keep_page_id (omega arith)
        (omega arith)
      ∙ read-put_le p_page_type p_page_type-IsPage 8 off_page_id id (omega arith) small

  fresh_free_start : read_le 2 fresh.bytes off_free_start ≡ header_size
  fresh_free_start =
      agree_read fresh p_free_start 0 off_free_end off_free_start 2 keep_free_start (omega arith)
        (omega arith)
      ∙ read-put_le p_page_lsn p_page_lsn-IsPage 2 off_free_start header_size (omega arith)
          (omega arith)

  fresh_free_end : read_le 2 fresh.bytes off_free_end ≡ page_size
  fresh_free_end =
      agree_read fresh p_free_end 0 off_slot_count off_free_end 2 keep_free_end (omega arith)
        (omega arith)
      ∙ read-put_le p_free_start p_free_start-IsPage 2 off_free_end page_size (omega arith)
          (omega arith)

  fresh_slot_count : read_le 2 fresh.bytes off_slot_count ≡ 0
  fresh_slot_count =
      agree_read fresh p_slot_count 0 30 off_slot_count 2 keep_slot_count (omega arith)
        (omega arith)
      ∙ read-put_le p_free_end p_free_end-IsPage 2 off_slot_count 0 (omega arith) (omega arith)

  fresh-IsWellFormed : IsWellFormed fresh t
  fresh-IsWellFormed = record {
    page = refresh-IsPage p_slot_count p_slot_count-IsPage;
    formatted = record {
      magic = fresh_magic;
      version = fresh_version;
      directory = omega (arith, fresh_free_start, fresh_slot_count);
      room = omega (arith, fresh_free_start, fresh_free_end);
      within = omega (arith, fresh_free_end);
      kind = rw fresh_page_type (from-to_u16 t);
    };
    checked = refresh-checked p_slot_count p_slot_count-IsPage;
    slots = λ i h. absurd (omega (arith, fresh_slot_count));
  }

  -- A new page of any type is well formed at that type, carries its id, has no slot, and its free
  -- space is all that the header leaves.
  pub new-IsWellFormed :
      id < 2 ^ 64
      → IsWellFormed (new id t) t
        × (page_id (new id t) ≡ id)
        × (slot_count (new id t) ≡ 0)
        × (free_end (new id t) - free_start (new id t) ≡ page_size - header_size)
  unfolding new
  new-IsWellFormed small = (
    fresh-IsWellFormed,
    fresh_page_id small,
    fresh_slot_count,
    omega (arith, fresh_free_start, fresh_free_end),
  )
