-- ===== src/Catalog/Evolve.antt =====
-- Every operation on the metadata leaves a consistent catalog consistent.
use rdbms.Prelude.{ℕ, ◌≡◌, refl, Bool, true, false, not, List, [], ◌∷◌, ◌++◌, if◌then◌else◌}
use rdbms.Core.{PageId, RelationId, DbResult, user, reject, ok_or}
use rdbms.Exec.{Exec, pure, lift, gets, modify, ◌>>=◌, ◌>>◌}
use rdbms.Catalog.Format.{
  text_eq, ExtensionInfo, index_storage_of, Text, is_table, is_index, ColumnDef, StorageObject,
  heap, b_plus_tree, RelationKind, table, index, RelationInfo, Catalog,
}
use rdbms.Catalog.Meta.{
  any, indexes_on_table, validate_name, validate_columns, relation_by_id, extension_by_name,
  is_some, relation_by_name,
}
use rdbms.Catalog.Change.{
  on_column, index_key, registered, allocate_relation_id, allocate_page_id, push_relation,
  create_table_metadata, create_index_metadata, push_page, set_root_page, append_heap_page,
  set_index_root_page, register_extension_metadata,
}
use rdbms.Catalog.Consistent.{pages_of, IsConsistent}
use rdbms.Catalog.Keeps.{
  Does, Does-bind, Does-lift, Does-gets, Does-pure, Any, Done, IsFree, IsNewId, IsNewPage,
  Does-IsFree, Does-relation_id, Does-page_id, Does-push,
}
use rdbms.Catalog.Changed.{Does-change, with_storage-AddsPage, push_page-grows, set_root_page-grows}

-- Rules for the steps of the operations.
module _ {A B : Type 0} (X : Catalog → Type 0) (R : B → Catalog → Type 0) where
  lift-then :
      (r : DbResult A) (k : A → Exec Catalog B)
      → ((a : A) → Does X (k a) R)
      → Does X (lift r >>= k) R
  lift-then r k x = Does-bind X (λ _. X) R (lift r) k (Does-lift X r) x

  gets-then :
      (f : Catalog → DbResult A) (k : A → Exec Catalog B)
      → ((a : A) → Does X (k a) R)
      → Does X (gets f >>= k) R
  gets-then f k x = Does-bind X (λ _. X) R (gets f) k (Does-gets X f) x

Does-known :
    (known : Bool) (m n : Exec Catalog Bool)
    → Does Any m Done
    → Does Any n Done
    → Does Any (if known then m else n) Done
Does-known true m n x y = x
Does-known false m n x y = y

-- The end that both kinds of new relations have: a free name, a new id, a new page, the relation.
module _ (name : Text) (kind : RelationKind) (storage : PageId → StorageObject)
    (columns : List ColumnDef) (at_page : (p : PageId) → pages_of (storage p) ≡ p ∷ []) where
  abbrev new_relation : RelationId → PageId → RelationInfo
  new_relation id p = record {
    id = id;
    name = name;
    kind = kind;
    storage = storage p;
    columns = columns;
  }

  abbrev add_relation : Exec Catalog (RelationId × PageId)
  add_relation = do
    id ← allocate_relation_id
    p ← allocate_page_id
    modify (push_relation (new_relation id p))
    pure (id, p)

  add_relation-Does : Does (IsFree name) add_relation Done
  add_relation-Does =
      Does-bind (IsFree name) (λ id c. IsFree name c × IsNewId id c) Done allocate_relation_id _
        (Does-relation_id name)
        (λ id.
          Does-bind (λ c. IsFree name c × IsNewId id c)
            (λ p c. (IsFree name c × IsNewId id c) × IsNewPage p c) Done allocate_page_id _
            (Does-page_id (λ c. IsFree name c × IsNewId id c) (λ c n x. x))
            (λ p.
              Does-bind (λ c. (IsFree name c × IsNewId id c) × IsNewPage p c) Done Done
                (modify (push_relation (new_relation id p))) _
                (Does-push (new_relation id p) p (at_page p)) (λ _. Does-pure Any (id, p))))

  -- After the test that no relation has the name.
  add_free-Does :
      Does Any (gets (λ c. reject (is_some (relation_by_name name c)) user) >> add_relation) Done
  add_free-Does =
      Does-bind Any (λ _. IsFree name) Done _ _ (Does-IsFree name) (λ _. add_relation-Does)

pub create_table-Does :
    (name : Text) (columns : List ColumnDef) → Does Any (create_table_metadata name columns) Done
unfolding create_table_metadata pages_of
create_table-Does name columns = lift-then Any Done (validate_name name) _ (λ _.
    lift-then Any Done (validate_columns columns) _ (λ _.
      Does-bind Any (λ _. IsFree name) Done _ _ (Does-IsFree name)
        (λ _.
          add_relation-Does name table (λ p. heap (record { pages = p ∷ [] })) columns
            (λ p. refl))))

pub create_index-Does :
    (name : Text) (table_id : RelationId) (column_name : Text)
    → Does Any (create_index_metadata name table_id column_name) Done
unfolding create_index_metadata pages_of
create_index-Does name table_id column_name = lift-then Any Done (validate_name name) _ (λ _.
    lift-then Any Done (validate_name column_name) _ (λ _.
      Does-bind Any (λ _. IsFree name) Done _ _ (Does-IsFree name)
        (λ _.
          gets-then (IsFree name) Done (λ c. ok_or (relation_by_id table_id c) user) _
            (λ owner. lift-then (IsFree name) Done (reject (not (is_table owner.kind)) user) _ (λ _.
              lift-then (IsFree name) Done
                (reject
                  (not
                    (any (λ (column : ColumnDef). text_eq column.name column_name) owner.columns))
                  user)
                _
                (λ _.
                  gets-then (IsFree name) Done
                    (λ c.
                      reject
                        (any
                          (λ (r : RelationInfo). on_column column_name (index_storage_of r.storage))
                          (indexes_on_table table_id c))
                        user)
                    _
                    (λ _.
                      add_relation-Does name index
                        (λ p. b_plus_tree (record {
                          table_id = table_id;
                          column_name = column_name;
                          root_page_id = p;
                        }))
                        (record { name = column_name; type_name = index_key } ∷ [])
                        (λ p. refl))))))))

more_extensions :
    (c : Catalog) (extensions : List ExtensionInfo)
    → IsConsistent c
    → IsConsistent (record c { extensions = extensions })
more_extensions c extensions h = record {
  ids = h.ids;
  ids_below = h.ids_below;
  names = h.names;
  pages = h.pages;
  pages_below = h.pages_below;
  first_page = h.first_page;
  ids_fit = h.ids_fit;
  pages_fit = h.pages_fit;
  catalog_page = h.catalog_page;
}

Does-extensions :
    (e : ExtensionInfo)
    → Does Any (do modify (λ c. record c { extensions = c.extensions ++ (e ∷ []) }); pure true) Done
Does-extensions e = record {
  run = λ c h x.
      let done = more_extensions c (c.extensions ++ (e ∷ [])) h in (done, λ a e. (done, tt));
}

pub register_extension-Does :
    (name : Text) (abi_version : ℕ) (kind : Text)
    → Does Any (register_extension_metadata name abi_version kind) Done
unfolding register_extension_metadata
register_extension-Does name abi_version kind = lift-then Any Done (validate_name name) _ (λ _.
    lift-then Any Done (validate_name kind) _ (λ _.
      gets-then Any Done (λ c. registered abi_version kind (extension_by_name name c)) _
        (λ known.
          Does-known known _ _ (Does-pure Any false)
            (Does-extensions (record { name = name; abi_version = abi_version; kind = kind })))))

-- A new page, given to a heap relation or to an index as its root.
page-Does :
    (change : RelationId → PageId → Exec Catalog (Unit {0})) (id : RelationId)
    → ((p : PageId) → Does (IsNewPage p) (change id p) Done)
    → Does Any (allocate_page_id >>= change id) Done
page-Does change id x =
    Does-bind Any (λ p c. Any c × IsNewPage p c) Done allocate_page_id (change id)
      (Does-page_id Any (λ c n x. x)) (λ p. record { run = λ c h y. (x p).run c h y.1 })

pub append_heap_page-Does :
    (id : RelationId) → Does Any (allocate_page_id >>= append_heap_page id) Done
unfolding append_heap_page
append_heap_page-Does id = page-Does append_heap_page id (λ p.
    Does-change p id _
      (with_storage-AddsPage p (λ r. is_table r.kind) (push_page p) (push_page-grows p)))

pub set_index_root_page-Does :
    (id : RelationId) → Does Any (allocate_page_id >>= set_index_root_page id) Done
unfolding set_index_root_page
set_index_root_page-Does id = page-Does set_index_root_page id (λ p.
    Does-change p id _
      (with_storage-AddsPage p (λ r. is_index r.kind) (set_root_page p) (set_root_page-grows p)))
