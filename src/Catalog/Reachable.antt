-- ===== src/Catalog/Reachable.antt =====
-- The catalogs that the metadata operations reach from an empty one.
use rdbms.Prelude.{refl, ℕ, List, arith}
use rdbms.Core.{RelationId}
use rdbms.Exec.{◌>>=◌}
use rdbms.Catalog.Format.{Text, ColumnDef, Catalog, empty}
use rdbms.Catalog.Change.{
  allocate_page_id, create_table_metadata, create_index_metadata, append_heap_page,
  set_index_root_page, register_extension_metadata,
}
use rdbms.Catalog.Consistent.{total, IsConsistent}
use rdbms.Catalog.Evolve.{
  create_table-Does, create_index-Does, register_extension-Does, append_heap_page-Does,
  set_index_root_page-Does,
}

-- The steps, with what they leave also when they fail. A page is allocated before it is given to a
-- relation, as the insertion of a row and the split of an index root do.
pub data Reachable : Catalog → Type 0 where
  bootstrapped : Reachable empty
  table_step :
      {c : Catalog} (name : Text) (columns : List ColumnDef)
      → Reachable c
      → Reachable (create_table_metadata name columns c).1
  index_step :
      {c : Catalog} (name : Text) (table_id : RelationId) (column_name : Text)
      → Reachable c
      → Reachable (create_index_metadata name table_id column_name c).1
  extension_step :
      {c : Catalog} (name : Text) (abi_version : ℕ) (kind : Text)
      → Reachable c
      → Reachable (register_extension_metadata name abi_version kind c).1
  heap_page_step :
      {c : Catalog} (id : RelationId)
      → Reachable c
      → Reachable ((allocate_page_id >>= append_heap_page id) c).1
  index_root_step :
      {c : Catalog} (id : RelationId)
      → Reachable c
      → Reachable ((allocate_page_id >>= set_index_root_page id) c).1

empty-IsConsistent : IsConsistent empty
unfolding empty total
empty-IsConsistent = record {
  ids = λ id. omega arith;
  ids_below = λ id le. refl;
  names = λ name. omega arith;
  pages = λ p. omega arith;
  pages_below = λ p le. refl;
  first_page = omega arith;
  ids_fit = omega arith;
  pages_fit = omega arith;
  catalog_page = refl;
}

-- However the metadata operations succeed or fail, one after another from an empty catalog: no two
-- relations have the same id or the same name, no page is given out twice, to two relations or to one,
-- the counters stay above the ids and the pages in use, and page 0 is left to the catalog.
pub Reachable-IsConsistent : (c : Catalog) → Reachable c → IsConsistent c
Reachable-IsConsistent c bootstrapped = empty-IsConsistent
Reachable-IsConsistent c (table_step {c = b} name columns before) =
    ((create_table-Does name columns).run b (Reachable-IsConsistent b before) tt).0
Reachable-IsConsistent c (index_step {c = b} name table_id column_name before) =
    ((create_index-Does name table_id column_name).run b (Reachable-IsConsistent b before) tt).0
Reachable-IsConsistent c (extension_step {c = b} name abi_version kind before) =
    ((register_extension-Does name abi_version kind).run b (Reachable-IsConsistent b before) tt).0
Reachable-IsConsistent c (heap_page_step {c = b} id before) =
    ((append_heap_page-Does id).run b (Reachable-IsConsistent b before) tt).0
Reachable-IsConsistent c (index_root_step {c = b} id before) =
    ((set_index_root_page-Does id).run b (Reachable-IsConsistent b before) tt).0
