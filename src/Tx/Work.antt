-- ===== src/Tx/Work.antt =====
-- What a transaction does to the catalog and the heaps, and the methods that do it in a transaction
-- of their own, crates/rdbms_tx/src/lib.rs.
use rdbms.Prelude.{ℕ, Bool, Option, none, some, List, [], ◌∷◌, if◌then◌else◌}
use rdbms.Core.{PageId, RelationId, RowId, DbResult, ok, err, panicked}
use rdbms.Exec.{Exec, pure, lift, gets, modify, ◌>>=◌, ◌>>◌}
use rdbms.Page.Format.{PageType, Page}
use rdbms.Page.Ops.{new}
use rdbms.Vfs.File.{VfsFile}
use rdbms.Vfs.Read.{read_page}
use rdbms.Catalog.Format.{catalog_page_id, Text, ColumnDef, Catalog}
use rdbms.Catalog.Change.{
  allocate_page_id, append_heap_page, create_table_metadata, register_extension_metadata,
}
use rdbms.Catalog.Scan.{
  HeapRow, to_page, insert_into, ensure_heap_relation, heap_pages, scan_relation, full_scan,
  read_row,
}
use rdbms.Catalog.Store.{Attempt, stored, next, attempt}
use rdbms.Tx.Pages.{get_page, insert_page}
use rdbms.Tx.State.{Transaction, TransactionalStore, ensure_active, dropped, begin, commit}

module _ {F A : Type 0} where
  abbrev pub on_working : Exec Catalog A → Exec (Transaction F) A
  on_working m t = ((m t.working_catalog).0, record t { working_catalog = (m t.working_catalog).1 })

module _ {F : Type 0} where
  unfoldable pub stage : PageId → Page → Transaction F → Transaction F
  stage page_id page t = record t { dirty_pages = insert_page page_id page t.dirty_pages }

  unfoldable pub mark_catalog_dirty : Exec (Transaction F) (Unit {0})
  mark_catalog_dirty = do
    page ← gets (λ t. to_page t.working_catalog)
    modify (stage catalog_page_id page)

  unfoldable pub register_extension : Text → ℕ → Text → Exec (Transaction F) Bool
  register_extension name abi_version kind = do
    gets ensure_active
    inserted ← on_working (register_extension_metadata name abi_version kind)
    if inserted then (do mark_catalog_dirty; pure inserted) else pure inserted

  unfoldable pub create_table : Text → List ColumnDef → Exec (Transaction F) RelationId
  create_table name columns = do
    gets ensure_active
    (relation_id, first_page_id) ← on_working (create_table_metadata name columns)
    modify (stage first_page_id (new first_page_id PageType.heap))
    mark_catalog_dirty
    pure relation_id

  -- The page of the row, where one of the pages has room.
  unfoldable pub stage_row :
      Attempt → PageId → Exec (Transaction F) RowId → Exec (Transaction F) RowId
  stage_row (stored slot_id page) page_id others = do
    modify (stage page_id page)
    pure (record { page_id = page_id; slot_id = slot_id })
  stage_row next page_id others = others

  unfoldable pub insert_new_page : RelationId → List ℕ → Exec (Transaction F) RowId
  insert_new_page relation_id bytes = do
    page_id ← on_working allocate_page_id
    (slot_id, page) ← lift (insert_into bytes (new page_id PageType.heap))
    on_working (append_heap_page relation_id page_id)
    modify (stage page_id page)
    mark_catalog_dirty
    pure (record { page_id = page_id; slot_id = slot_id })

abbrev pub or_read : Option Page → DbResult Page → DbResult Page
or_read (some page) read = ok page
or_read none read = read

module _ (vfs : VfsFile) where
  open vfs use {File}

  -- A staged page hides the page of the file.
  unfoldable pub load_page : PageId → Transaction File → DbResult Page
  load_page page_id t =
      or_read (get_page page_id t.dirty_pages) (read_page vfs page_id t.manager.store.page_file)

  unfoldable pub insert_in_pages : RelationId → List ℕ → List PageId → Exec (Transaction File) RowId
  insert_in_pages relation_id bytes [] = insert_new_page relation_id bytes
  insert_in_pages relation_id bytes (page_id ∷ page_ids) = do
    page ← gets (load_page page_id)
    outcome ← lift (attempt (insert_into bytes page))
    stage_row outcome page_id (insert_in_pages relation_id bytes page_ids)

  unfoldable pub insert_row : RelationId → List ℕ → Exec (Transaction File) RowId
  insert_row relation_id bytes = do
    gets ensure_active
    gets (λ t. ensure_heap_relation relation_id t.working_catalog)
    page_ids ← gets (λ t. heap_pages relation_id t.working_catalog)
    insert_in_pages relation_id bytes page_ids

  unfoldable pub scan_in : RelationId → Exec (Transaction File) (List HeapRow)
  scan_in relation_id = do
    gets ensure_active
    gets (λ t. scan_relation (λ id. load_page id t) relation_id t.working_catalog)

  -- `full_scan` and `read_row` of the store, of what is committed.
  unfoldable pub scan_committed : RelationId → TransactionalStore File → DbResult (List HeapRow)
  scan_committed relation_id m = full_scan vfs relation_id m.store.page_file m.store.catalog

  unfoldable pub read_committed :
      RelationId → RowId → TransactionalStore File → DbResult (Option HeapRow)
  read_committed relation_id row_id m =
      read_row vfs relation_id row_id m.store.page_file m.store.catalog

module _ (vfs : VfsFile) {A : Type 0} where
  open vfs use {File}

  -- After the work: a commit, or the drop that an early return makes.
  abbrev pub or_dropped : DbResult A → Transaction File → DbResult A × TransactionalStore File
  or_dropped (ok a) t = committed_with a (commit vfs t).0 (commit vfs t).1
    where
      committed_with :
          A → DbResult (Unit {0}) → TransactionalStore File → DbResult A × TransactionalStore File
      committed_with a (ok done) m = (ok a, m)
      committed_with a (err e) m = (err e, m)
      committed_with a panicked m = (panicked, m)
  or_dropped (err e) t = (err e, dropped t)
  or_dropped panicked t = (panicked, dropped t)

  abbrev pub or_not_begun :
      DbResult (Transaction File)
      → TransactionalStore File
      → Exec (Transaction File) A
      → DbResult A × TransactionalStore File
  or_not_begun (ok t) m work = or_dropped (work t).0 (work t).1
  or_not_begun (err e) m work = (err e, m)
  or_not_begun panicked m work = (panicked, m)

  -- `begin()?`, the work, `commit()?`
  unfoldable pub autocommit : Exec (Transaction File) A → Exec (TransactionalStore File) A
  autocommit work m = or_not_begun (begin vfs m).0 (begin vfs m).1 work

module _ (vfs : VfsFile) where
  open vfs use {File}

  unfoldable pub create_table_autocommit :
      Text → List ColumnDef → Exec (TransactionalStore File) RelationId
  create_table_autocommit name columns = autocommit vfs (create_table name columns)

  unfoldable pub insert_row_autocommit : RelationId → List ℕ → Exec (TransactionalStore File) RowId
  insert_row_autocommit relation_id bytes = autocommit vfs (insert_row vfs relation_id bytes)

  unfoldable pub register_extension_autocommit :
      Text → ℕ → Text → Exec (TransactionalStore File) Bool
  register_extension_autocommit name abi_version kind =
      autocommit vfs (register_extension name abi_version kind)
