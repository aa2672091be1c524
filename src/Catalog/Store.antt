-- ===== src/Catalog/Store.antt =====
-- The methods of `CatalogStore` on `&mut self`, crates/rdbms_catalog/src/lib.rs.
use rdbms.Prelude.{ℕ, Bool, List, [], ◌∷◌, ltb, ◌==◌, if◌then◌else◌}
use rdbms.Core.{
  PageId, RelationId, SlotId, RowId, DbResult, ok, err, panicked, user, corruption, reject,
}
use rdbms.Exec.{Exec, pure, lift, gets, ◌>>=◌, ◌>>◌}
use rdbms.Page.Format.{page_size, PageType, Page}
use rdbms.Page.Ops.{new}
use rdbms.Vfs.File.{VfsFile}
use rdbms.Vfs.Read.{read_page}
use rdbms.Vfs.PageFile.{write_page}
use rdbms.Catalog.Format.{catalog_page_id, Text, ColumnDef, Catalog, empty}
use rdbms.Catalog.Change.{allocate_page_id, append_heap_page, create_table_metadata}
use rdbms.Catalog.Scan.{to_page, insert_into, ensure_heap_relation, heap_pages, load_from_page}

pub record CatalogStore (F : Type 0) : Type 0 where
  pub page_file : F
  pub catalog : Catalog

module _ {F A : Type 0} where
  abbrev pub on_page_file : Exec F A → Exec (CatalogStore F) A
  on_page_file m s = ((m s.page_file).0, record s { page_file = (m s.page_file).1 })

  abbrev pub on_catalog : Exec Catalog A → Exec (CatalogStore F) A
  on_catalog m s = ((m s.catalog).0, record s { catalog = (m s.catalog).1 })

-- What a loop over the pages does after an insertion: it stops, goes on to the next page, or fails.
pub data Attempt : Type 0 where
  stored : SlotId → Page → Attempt
  next : Attempt

-- `match page.insert_record(bytes)`: a page without room is passed over.
unfoldable pub attempt : DbResult (SlotId × Page) → DbResult Attempt
attempt (ok (slot_id, page)) = ok (stored slot_id page)
attempt (err user) = ok next
attempt (err e) = err e
attempt panicked = panicked

module _ (vfs : VfsFile) where
  open vfs use {File, len, sync_data}

  unfoldable pub save : Catalog → Exec File (Unit {0})
  save catalog = do page ← lift (to_page catalog); write_page vfs page

  unfoldable pub load_or_bootstrap : (List ℕ → Bool) → Exec File Catalog
  load_or_bootstrap is_utf8 = do
    size ← gets len
    if size == 0 then (do save empty; pure empty) else (do
      lift (reject (ltb size page_size) corruption)
      page ← gets (read_page vfs catalog_page_id)
      lift (load_from_page is_utf8 page))

  unfoldable pub create_table : Text → List ColumnDef → Exec (CatalogStore File) RelationId
  create_table name columns = do
    (relation_id, first_page_id) ← on_catalog (create_table_metadata name columns)
    on_page_file (write_page vfs (new first_page_id PageType.heap))
    catalog ← gets (λ s. ok s.catalog)
    on_page_file (save catalog)
    pure relation_id

  -- The page of the row, where one of the pages has room.
  unfoldable pub store_row :
      Attempt → PageId → Exec (CatalogStore File) RowId → Exec (CatalogStore File) RowId
  store_row (stored slot_id page) page_id others = do
    on_page_file (write_page vfs page)
    pure (record { page_id = page_id; slot_id = slot_id })
  store_row next page_id others = others

  -- A new page, after the loop over the pages of the relation.
  unfoldable pub insert_new_page : RelationId → List ℕ → Exec (CatalogStore File) RowId
  insert_new_page relation_id bytes = do
    page_id ← on_catalog allocate_page_id
    (slot_id, page) ← lift (insert_into bytes (new page_id PageType.heap))
    on_page_file (write_page vfs page)
    on_catalog (append_heap_page relation_id page_id)
    catalog ← gets (λ s. ok s.catalog)
    on_page_file (save catalog)
    pure (record { page_id = page_id; slot_id = slot_id })

  unfoldable pub insert_in_pages :
      RelationId → List ℕ → List PageId → Exec (CatalogStore File) RowId
  insert_in_pages relation_id bytes [] = insert_new_page relation_id bytes
  insert_in_pages relation_id bytes (page_id ∷ page_ids) = do
    page ← gets (λ s. read_page vfs page_id s.page_file)
    outcome ← lift (attempt (insert_into bytes page))
    store_row outcome page_id (insert_in_pages relation_id bytes page_ids)

  unfoldable pub insert_row : RelationId → List ℕ → Exec (CatalogStore File) RowId
  insert_row relation_id bytes = do
    gets (λ s. ensure_heap_relation relation_id s.catalog)
    page_ids ← gets (λ s. heap_pages relation_id s.catalog)
    insert_in_pages relation_id bytes page_ids

  -- `CatalogStore::open`, which takes the file: beside the store, the file as it is left on an error.
  unfoldable pub open_store : (List ℕ → Bool) → Exec File (CatalogStore File)
  open_store is_utf8 = do
    catalog ← load_or_bootstrap is_utf8
    gets (λ file. ok (record { page_file = file; catalog = catalog }))
