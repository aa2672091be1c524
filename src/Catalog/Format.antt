-- ===== src/Catalog/Format.antt =====
-- crates/rdbms_catalog/src/lib.rs: the catalog's data. A `String` is the list of its bytes.
use rdbms.Prelude.{
  ℕ, Bool, true, false, ◌&&◌, List, [], ◌∷◌, Option, none, some, ◌==◌, if◌then◌else◌,
}
use rdbms.Core.{PageId, RelationId, DbResult, ok, err, corruption}

abbrev pub catalog_page_id : PageId
catalog_page_id = 0

abbrev pub catalog_magic : List ℕ
catalog_magic = b'R' ∷ b'D' ∷ b'B' ∷ b'C' ∷ []

abbrev pub catalog_version : ℕ
catalog_version = 1

abbrev pub storage_heap : ℕ
storage_heap = 1

abbrev pub storage_index : ℕ
storage_index = 2

-- The text of a name.
abbrev pub Text : Type 0
Text = List ℕ

unfoldable pub text_eq : Text → Text → Bool
text_eq [] [] = true
text_eq (x ∷ xs) (y ∷ ys) = (x == y) && text_eq xs ys
text_eq _ _ = false

pub data RelationKind : Type 0 where
  table index system : RelationKind

abbrev pub kind_to_u8 : RelationKind → ℕ
kind_to_u8 table = 1
kind_to_u8 index = 2
kind_to_u8 system = 3

unfoldable pub kind_from_u8 : ℕ → DbResult RelationKind
kind_from_u8 value =
    if value == 1
    then ok table
    else if value == 2
    then ok index
    else if value == 3
    then ok system
    else err corruption

abbrev pub is_table : RelationKind → Bool
is_table table = true
is_table index = false
is_table system = false

abbrev pub is_index : RelationKind → Bool
is_index index = true
is_index table = false
is_index system = false

pub record ColumnDef : Type 0 where
  pub name : Text
  pub type_name : Text

pub record ExtensionInfo : Type 0 where
  pub name : Text
  pub abi_version : ℕ
  pub kind : Text

pub record HeapStorage : Type 0 where
  pub pages : List PageId

pub record IndexStorage : Type 0 where
  pub table_id : RelationId
  pub column_name : Text
  pub root_page_id : PageId

pub data StorageObject : Type 0 where
  heap : HeapStorage → StorageObject
  b_plus_tree : IndexStorage → StorageObject

unfoldable pub heap_pages_of : StorageObject → List PageId
heap_pages_of (heap storage) = storage.pages
heap_pages_of (b_plus_tree storage) = []

unfoldable pub index_storage_of : StorageObject → Option IndexStorage
index_storage_of (heap storage) = none
index_storage_of (b_plus_tree storage) = some storage

pub record RelationInfo : Type 0 where
  pub id : RelationId
  pub name : Text
  pub kind : RelationKind
  pub storage : StorageObject
  pub columns : List ColumnDef

pub record Catalog : Type 0 where
  pub next_relation_id : ℕ
  pub next_page_id : ℕ
  pub relations : List RelationInfo
  pub extensions : List ExtensionInfo

-- `Catalog::empty`: page 0 is the catalog's.
unfoldable pub empty : Catalog
empty = record { next_relation_id = 1; next_page_id = 1; relations = []; extensions = [] }
