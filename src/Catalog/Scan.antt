-- ===== src/Catalog/Scan.antt =====
-- The methods of `CatalogStore` and `Catalog` on `&self` that reach the pages,
-- crates/rdbms_catalog/src/lib.rs.
use rdbms.Prelude.{
  ℕ, zero, suc, ◌+◌, Bool, true, false, not, ◌||◌, Option, none, some, List, [], ◌∷◌, ◌++◌, ◌==◌,
}
use rdbms.Core.{
  PageId, RelationId, SlotId, RowId, DbResult, ok, err, panicked, user, corruption, reject, ok_or,
  ◌>>=◌, ◌>>◌,
}
use rdbms.Page.Format.{PageType, Page, header, read_record}
use rdbms.Page.Ops.{new, insert_record}
use rdbms.Vfs.File.{VfsFile}
use rdbms.Vfs.Read.{read_page}
use rdbms.Catalog.Format.{catalog_page_id, is_table, heap_pages_of, Catalog}
use rdbms.Catalog.Encode.{encode_catalog, decode_catalog}
use rdbms.Catalog.Meta.{relation_by_id}

pub record HeapRow : Type 0 where
  pub row_id : RowId
  pub bytes : List ℕ

abbrev pub is_catalog_page : PageType → Bool
is_catalog_page PageType.catalog = true
is_catalog_page _ = false

abbrev pub is_heap_page : PageType → Bool
is_heap_page PageType.heap = true
is_heap_page _ = false

-- `page.insert_record(bytes)?` on a page of one's own: the slot and the page after it.
abbrev pub inserted : DbResult SlotId → Page → DbResult (SlotId × Page)
inserted (ok slot_id) page = ok (slot_id, page)
inserted (err e) page = err e
inserted panicked page = panicked

unfoldable pub insert_into : List ℕ → Page → DbResult (SlotId × Page)
insert_into bytes page = inserted (insert_record bytes page).0 (insert_record bytes page).1

unfoldable pub to_page : Catalog → DbResult Page
to_page catalog = do
  bytes ← encode_catalog catalog
  (slot_id, page) ← insert_into bytes (new catalog_page_id PageType.catalog)
  ok page

unfoldable pub ensure_heap_relation : RelationId → Catalog → DbResult (Unit {0})
ensure_heap_relation relation_id c = do
  relation ← ok_or (relation_by_id relation_id c) user
  reject (not (is_table relation.kind)) user

unfoldable pub heap_pages : RelationId → Catalog → DbResult (List PageId)
heap_pages relation_id c = do
  relation ← ok_or (relation_by_id relation_id c) user
  ok (heap_pages_of relation.storage)

abbrev pub row_at : RowId → Option (List ℕ) → Option HeapRow
row_at row_id none = none
row_at row_id (some bytes) = some (record { row_id = row_id; bytes = bytes })

abbrev pub push_row : Option HeapRow → List HeapRow → List HeapRow
push_row none rows = rows
push_row (some row) rows = row ∷ rows

-- The loop over the slots of a page, with the rows of the slots from slot_index on.
unfoldable pub scan_slots : PageId → Page → ℕ → SlotId → DbResult (List HeapRow)
scan_slots page_id page zero slot_index = ok []
scan_slots page_id page (suc rounds) slot_index = do
  found ← read_record page slot_index
  rows ← scan_slots page_id page rounds (slot_index + 1)
  ok (push_row (row_at (record { page_id = page_id; slot_id = slot_index }) found) rows)

abbrev pub contains_page : List PageId → PageId → Bool
contains_page [] id = false
contains_page (p ∷ ps) id = (p == id) || contains_page ps id

-- `is_utf8` stands for `String::from_utf8`.
unfoldable pub load_from_page : (List ℕ → Bool) → Page → DbResult Catalog
load_from_page is_utf8 page = do
  h ← header page
  reject (not (is_catalog_page h.page_type)) corruption
  stored ← read_record page 0
  bytes ← ok_or stored corruption
  decode_catalog is_utf8 bytes

module _ (load_page : PageId → DbResult Page) where
  -- The body of the loop over the pages of a relation, in `CatalogStore` and in `Transaction`, which
  -- differ in where they load a page from.
  unfoldable pub scan_page : PageId → DbResult (List HeapRow)
  scan_page page_id = do
    page ← load_page page_id
    h ← header page
    reject (not (is_heap_page h.page_type)) corruption
    scan_slots page_id page h.slot_count 0

  unfoldable pub scan_pages : List PageId → DbResult (List HeapRow)
  scan_pages [] = ok []
  scan_pages (page_id ∷ page_ids) = do
    rows ← scan_page page_id
    others ← scan_pages page_ids
    ok (rows ++ others)

  unfoldable pub scan_relation : RelationId → Catalog → DbResult (List HeapRow)
  scan_relation relation_id c = do
    ensure_heap_relation relation_id c
    page_ids ← heap_pages relation_id c
    scan_pages page_ids

module _ (vfs : VfsFile) where
  open vfs use {File}

  unfoldable pub full_scan : RelationId → File → Catalog → DbResult (List HeapRow)
  full_scan relation_id file c = scan_relation (λ id. read_page vfs id file) relation_id c

  unfoldable pub read_row : RelationId → RowId → File → Catalog → DbResult (Option HeapRow)
  read_row relation_id row_id file c = do
    ensure_heap_relation relation_id c
    page_ids ← heap_pages relation_id c
    reject (not (contains_page page_ids row_id.page_id)) user
    page ← read_page vfs row_id.page_id file
    h ← header page
    reject (not (is_heap_page h.page_type)) corruption
    found ← read_record page row_id.slot_id
    ok (row_at row_id found)
