-- ===== src/Catalog/Change.antt =====
-- The methods of `Catalog` on `&mut self`, crates/rdbms_catalog/src/lib.rs.
use rdbms.Prelude.{
  ℕ, Bool, true, false, not, ◌&&◌, Option, none, some, List, [], ◌∷◌, ◌++◌, ◌==◌, if◌then◌else◌,
}
use rdbms.Core
use rdbms.Core.{
  PageId, RelationId, DbResult, ok, err, panicked, user, internal_invariant, reject, ok_or,
  checked_add,
}
use rdbms.Exec.{Exec, pure, lift, gets, modify, ◌>>=◌, ◌>>◌}
use rdbms.Catalog.Format.{
  Text, text_eq, table, index, is_table, is_index, ColumnDef, ExtensionInfo, IndexStorage,
  StorageObject, heap, b_plus_tree, index_storage_of, RelationInfo, Catalog,
}
use rdbms.Catalog.Meta.{
  any, is_some, validate_name, validate_columns, relation_by_id, relation_by_name,
  extension_by_name, indexes_on_table,
}

unfoldable pub allocate_relation_id : Exec Catalog RelationId
allocate_relation_id = do
  relation_id ← gets (λ c. ok c.next_relation_id)
  next ← lift (checked_add relation_id 1 user)
  modify (λ c. record c { next_relation_id = next })
  pure relation_id

unfoldable pub allocate_page_id : Exec Catalog PageId
allocate_page_id = do
  page_id ← gets (λ c. ok c.next_page_id)
  next ← lift (checked_add page_id 1 user)
  modify (λ c. record c { next_page_id = next })
  pure page_id

unfoldable pub push_relation : RelationInfo → Catalog → Catalog
push_relation relation c = record c { relations = c.relations ++ (relation ∷ []) }

unfoldable pub create_table_metadata : Text → List ColumnDef → Exec Catalog (RelationId × PageId)
create_table_metadata name columns = do
  lift (validate_name name)
  lift (validate_columns columns)
  gets (λ c. reject (is_some (relation_by_name name c)) user)
  relation_id ← allocate_relation_id
  page_id ← allocate_page_id
  modify (
      push_relation (record {
        id = relation_id;
        name = name;
        kind = table;
        storage = heap (record { pages = page_id ∷ [] });
        columns = columns;
      }))
  pure (relation_id, page_id)

-- The type name that index relations give to their column.
abbrev pub index_key : Text
index_key = b'I' ∷ b'N' ∷ b'D' ∷ b'E' ∷ b'X' ∷ b'_' ∷ b'K' ∷ b'E' ∷ b'Y' ∷ []

abbrev pub on_column : Text → Option IndexStorage → Bool
on_column column_name none = false
on_column column_name (some storage) = text_eq storage.column_name column_name

unfoldable pub create_index_metadata : Text → RelationId → Text → Exec Catalog (RelationId × PageId)
create_index_metadata name table_id column_name = do
  lift (validate_name name)
  lift (validate_name column_name)
  gets (λ c. reject (is_some (relation_by_name name c)) user)
  owner ← gets (λ c. ok_or (relation_by_id table_id c) user)
  lift (reject (not (is_table owner.kind)) user)
  lift (reject (not (any (λ column. text_eq column.name column_name) owner.columns)) user)
  gets (λ c.
      reject
        (any (λ r. on_column column_name (index_storage_of r.storage))
          (indexes_on_table table_id c))
        user)
  relation_id ← allocate_relation_id
  root_page_id ← allocate_page_id
  modify (
      push_relation (record {
        id = relation_id;
        name = name;
        kind = index;
        storage = b_plus_tree (record {
          table_id = table_id;
          column_name = column_name;
          root_page_id = root_page_id;
        });
        columns = record { name = column_name; type_name = index_key } ∷ [];
      }))
  pure (relation_id, root_page_id)

-- `relations.iter_mut().find(…)`, and the change of the relation that is found.
unfoldable pub change_relation :
    RelationId
    → (RelationInfo → DbResult RelationInfo)
    → List RelationInfo
    → DbResult (List RelationInfo)
change_relation relation_id change [] = err user
change_relation relation_id change (r ∷ relations) =
    let rest = change_relation relation_id change relations in
    if r.id == relation_id
    then Core.◌>>=◌ (change r) (λ changed. ok (changed ∷ relations))
    else Core.◌>>=◌ rest (λ others. ok (r ∷ others))

-- `push_page` on the storage, where it is a heap.
unfoldable pub push_page : PageId → StorageObject → DbResult StorageObject
push_page page_id (heap storage) = ok (heap (record { pages = storage.pages ++ (page_id ∷ []) }))
push_page page_id (b_plus_tree storage) = err internal_invariant

unfoldable pub set_root_page : PageId → StorageObject → DbResult StorageObject
set_root_page root_page_id (heap storage) = err internal_invariant
set_root_page root_page_id (b_plus_tree storage) =
    ok (b_plus_tree (record storage { root_page_id = root_page_id }))

-- Where the relation has the kind that the method is for, its storage is changed.
unfoldable pub with_storage :
    Bool → (StorageObject → DbResult StorageObject) → RelationInfo → DbResult RelationInfo
with_storage right_kind change r =
    if right_kind
    then Core.◌>>=◌ (change r.storage) (λ storage. ok (record r { storage = storage }))
    else err user

unfoldable pub change_storage :
    RelationId → (RelationInfo → DbResult RelationInfo) → Exec Catalog (Unit {0})
change_storage relation_id change = do
  relations ← gets (λ c. change_relation relation_id change c.relations)
  modify (λ c. record c { relations = relations })

unfoldable pub append_heap_page : RelationId → PageId → Exec Catalog (Unit {0})
append_heap_page relation_id page_id =
    change_storage relation_id (λ r. with_storage (is_table r.kind) (push_page page_id) r)

unfoldable pub set_index_root_page : RelationId → PageId → Exec Catalog (Unit {0})
set_index_root_page index_relation_id root_page_id =
    change_storage index_relation_id
      (λ r. with_storage (is_index r.kind) (set_root_page root_page_id) r)

-- The match on the extension that is already there.
abbrev pub registered : ℕ → Text → Option ExtensionInfo → DbResult Bool
registered abi_version kind none = ok false
registered abi_version kind (some existing) =
    if (existing.abi_version == abi_version) && text_eq existing.kind kind
    then ok true
    else err user

unfoldable pub register_extension_metadata : Text → ℕ → Text → Exec Catalog Bool
register_extension_metadata name abi_version kind = do
  lift (validate_name name)
  lift (validate_name kind)
  known ← gets (λ c. registered abi_version kind (extension_by_name name c))
  if known then pure false else do
    modify (λ c. record c {
      extensions =
          c.extensions ++ (record { name = name; abi_version = abi_version; kind = kind } ∷ []);
    })
    pure true
