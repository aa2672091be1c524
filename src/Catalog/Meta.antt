-- ===== src/Catalog/Meta.antt =====
-- The methods of `Catalog` on its relations and extensions, crates/rdbms_catalog/src/lib.rs.
use rdbms.Prelude.{
  Bool, true, false, ◌&&◌, ◌||◌, Option, none, some, List, [], ◌∷◌, ◌++◌, length, ltb, ◌==◌,
  if◌then◌else◌,
}
use rdbms.Core.{RelationId, DbResult, ok, user, reject, ◌>>◌}
use rdbms.Catalog.Format.{
  Text, text_eq, is_index, ColumnDef, ExtensionInfo, IndexStorage, index_storage_of, RelationInfo,
  Catalog,
}

-- `items.iter().find(test)`, `.any(test)` and `.filter(test)`.
unfoldable pub find {ℓ} : {A : Type ℓ} → (A → Bool) → List A → Option A
find test [] = none
find test (x ∷ xs) = if test x then some x else find test xs

unfoldable pub any {ℓ} : {A : Type ℓ} → (A → Bool) → List A → Bool
any test [] = false
any test (x ∷ xs) = test x || any test xs

unfoldable pub keep {ℓ} : {A : Type ℓ} → (A → Bool) → List A → List A
keep test [] = []
keep test (x ∷ xs) = if test x then x ∷ keep test xs else keep test xs

abbrev pub is_some {ℓ} : {A : Type ℓ} → Option A → Bool
is_some (some a) = true
is_some none = false

abbrev pub is_empty : Text → Bool
is_empty [] = true
is_empty (c ∷ cs) = false

unfoldable pub validate_name : Text → DbResult (Unit {0})
validate_name name = do reject (is_empty name) user; reject (ltb 65535 (length name)) user

-- The loop of `validate_columns`, after the columns `previous`.
unfoldable pub validate_columns_from : List ColumnDef → List ColumnDef → DbResult (Unit {0})
validate_columns_from previous [] = ok tt
validate_columns_from previous (column ∷ columns) = do
  validate_name column.name
  validate_name column.type_name
  reject (any (λ p. text_eq p.name column.name) previous) user
  validate_columns_from (previous ++ (column ∷ [])) columns

unfoldable pub validate_columns : List ColumnDef → DbResult (Unit {0})
validate_columns columns = do
  reject (ltb 65535 (length columns)) user
  validate_columns_from [] columns

unfoldable pub relation_by_id : RelationId → Catalog → Option RelationInfo
relation_by_id relation_id c = find (λ r. r.id == relation_id) c.relations

unfoldable pub relation_by_name : Text → Catalog → Option RelationInfo
relation_by_name name c = find (λ r. text_eq r.name name) c.relations

unfoldable pub extension_by_name : Text → Catalog → Option ExtensionInfo
extension_by_name name c = find (λ e. text_eq e.name name) c.extensions

abbrev pub is_index_of : RelationId → Option IndexStorage → Bool
is_index_of table_id none = false
is_index_of table_id (some storage) = storage.table_id == table_id

unfoldable pub indexes_on_table : RelationId → Catalog → List RelationInfo
indexes_on_table table_id c =
    keep (λ r. is_index r.kind && is_index_of table_id (index_storage_of r.storage)) c.relations
