-- ===== src/Tx/Index.antt =====
-- The B+tree indexes of a transaction and of the committed store, crates/rdbms_tx/src/lib.rs.
use rdbms.Prelude.{
  ℕ, ◌+◌, ◌^◌, ◌≡◌, ◌==◌, ◌≢◌, ◌∙◌, refl, ap, arith, Bool, true, false, Option, none, some, List,
  if◌then◌else◌, lt→ltb, ==_refl,
}
use rdbms.Core.{
  PageId, RelationId, RowId, DbResult, ok, err, panicked, user, internal_invariant, ok_or,
}
use rdbms.Exec.{Exec, pure, lift, gets, modify, ◌>>=◌, ◌>>◌}
use rdbms.Page.Format.{Page, header}
use rdbms.Page.Shape.{page_id, header_ok}
use rdbms.Vfs.File.{VfsFile}
use rdbms.Vfs.Read.{read_page}
use rdbms.Catalog.Format.{Text, Catalog, RelationInfo, IndexStorage, index_storage_of}
use rdbms.Catalog.Meta.{relation_by_id}
use rdbms.Catalog.Change.{allocate_page_id, create_index_metadata, set_index_root_page}
use rdbms.Index.Format.{IndexKey}
use rdbms.Index.Tree.{BPlusTreePageStore, initialize_root, insert, lookup}
use rdbms.Index.Stored.{PageView, IsPageStore}
use rdbms.Tx.Pages.{get_page}
use rdbms.Tx.Sorted.{IsSorted, insert_page-IsSorted, get_page-insert_page}
use rdbms.Tx.State.{Transaction, TransactionalStore, ensure_active}
use rdbms.Tx.Work.{on_working, stage, mark_catalog_dirty, load_page, or_read}

abbrev pub storage_of : Option RelationInfo → Option IndexStorage
storage_of none = none
storage_of (some relation) = index_storage_of relation.storage

-- The root page of an index relation.
unfoldable pub index_root : RelationId → Catalog → DbResult PageId
index_root index_relation_id c =
    root_of (ok_or (storage_of (relation_by_id index_relation_id c)) user)
  where
    root_of : DbResult IndexStorage → DbResult PageId
    root_of (ok storage) = ok storage.root_page_id
    root_of (err e) = err e
    root_of panicked = panicked

other_id : (a b : ℕ) → b ≢ a → (a == b) ≡ false
other_id a b h = ground (arith, h)

module _ (vfs : VfsFile) where
  open vfs use {File}

  -- `TransactionIndexPageStore`
  unfoldable pub transaction_store : BPlusTreePageStore (Transaction File)
  transaction_store = record {
    load_page = λ page_id. gets (load_page vfs page_id);
    store_page = λ page. lift (header page) >>= λ h. modify (stage h.page_id page);
    allocate_page = on_working allocate_page_id;
  }

  -- `CommittedIndexPageStore`, which reads only.
  unfoldable pub committed_store : BPlusTreePageStore (TransactionalStore File)
  committed_store = record {
    load_page = λ page_id. gets (λ m. read_page vfs page_id m.store.page_file);
    store_page = λ page. lift (err internal_invariant);
    allocate_page = lift (err internal_invariant);
  }

  module _ (is_utf8 : List ℕ → Bool) where
    unfoldable pub create_index :
        Text → RelationId → Text → Exec (Transaction File) (RelationId × PageId)
    create_index name table_id column_name = do
      gets ensure_active
      (index_relation_id, root_page_id) ←
          on_working (create_index_metadata name table_id column_name)
      initialize_root is_utf8 transaction_store root_page_id
      mark_catalog_dirty
      pure (index_relation_id, root_page_id)

    -- The catalog learns of a new root.
    unfoldable pub note_root : RelationId → PageId → PageId → Exec (Transaction File) (Unit {0})
    note_root index_relation_id root_page_id new_root_page_id =
        if new_root_page_id == root_page_id
        then pure tt
        else on_working (set_index_root_page index_relation_id new_root_page_id)

    unfoldable pub insert_index_entry :
        ℕ → RelationId → IndexKey → RowId → Exec (Transaction File) (Unit {0})
    insert_index_entry fuel index_relation_id key row_id = do
      gets ensure_active
      root_page_id ← gets (λ t. index_root index_relation_id t.working_catalog)
      new_root_page_id ←
          insert is_utf8 transaction_store fuel root_page_id (record { key = key; row_id = row_id })
      note_root index_relation_id root_page_id new_root_page_id
      mark_catalog_dirty

    unfoldable pub lookup_index :
        ℕ → RelationId → IndexKey → Exec (TransactionalStore File) (List RowId)
    lookup_index fuel index_relation_id key = do
      root_page_id ← gets (λ m. index_root index_relation_id m.store.catalog)
      lookup is_utf8 committed_store fuel root_page_id key

  load_staged :
      (t : Transaction File) (id other : PageId) (p : Page)
      → IsSorted t.dirty_pages
      → load_page vfs other (stage id p t) ≡ (if id == other then ok p else load_page vfs other t)
  unfolding load_page stage
  load_staged t id other p h =
      ap (λ o. or_read o (read_page vfs other t.manager.store.page_file))
        (get_page-insert_page id other p t.dirty_pages h)
      ∙ pick_if (id == other)
    where
      pick_if :
          (b : Bool)
          → or_read
              (if b then some p else get_page other t.dirty_pages)
              (read_page vfs other t.manager.store.page_file)
            ≡ (if b
                then ok p
                else or_read
                    (get_page other t.dirty_pages)
                    (read_page vfs other t.manager.store.page_file))
      pick_if true = refl
      pick_if false = refl

  abbrev pub staged_view : PageView (Transaction File)
  staged_view = record {
    IsValid = λ t. IsSorted t.dirty_pages;
    Holds = λ t id p. load_page vfs id t ≡ ok p;
    next = λ t. t.working_catalog.next_page_id;
  }

  -- The staged pages over those of the file are a page store, with the page ids of the working catalog.
  pub transaction_store-IsPageStore : IsPageStore transaction_store staged_view
  unfolding transaction_store allocate_page_id stage load_page
  transaction_store-IsPageStore = record {
    loads = λ t id p valid h. ap (λ r. (r, t)) h;
    stores = λ t p valid well. (
      stage (page_id p) p t,
      ap (λ r. (lift r >>= λ h. modify (stage h.page_id p)) t) (header_ok p well.formatted),
      insert_page-IsSorted (page_id p) p t.dirty_pages valid,
      refl,
      rw (load_staged t (page_id p) (page_id p) p valid, ==_refl (page_id p)) refl,
      λ i q other h. rw (load_staged t (page_id p) i p valid, other_id (page_id p) i other) h,
    );
    allocates = λ t valid room. (
      record t {
        working_catalog = record t.working_catalog {
          next_page_id = t.working_catalog.next_page_id + 1;
        };
      },
      rw (lt→ltb (t.working_catalog.next_page_id + 1) (2 ^ 64) room) refl,
      valid,
      refl,
      λ i q h. h,
    );
  }
