-- ===== src/Index/Format.antt =====
-- crates/rdbms_index/src/lib.rs: keys with their order, entries and nodes.
use Prim.Native.Nat.{compare, Ordering}
use Prim.Native.Nat.Ordering.{lt, eq, gt}
use rdbms.Prelude.{ℕ, ◌+◌, Bool, true, false, not, Option, List, [], ◌∷◌, length, ◌==◌}
use rdbms.Core.{PageId, RowId, ℤ, pos, negsuc, DbResult, corruption, reject}
use rdbms.Catalog.Format.{Text}

abbrev pub max_keys : ℕ
max_keys = 4

abbrev pub index_node_magic : List ℕ
index_node_magic = b'R' ∷ b'D' ∷ b'B' ∷ b'I' ∷ []

abbrev pub index_node_version : ℕ
index_node_version = 1

abbrev pub node_leaf : ℕ
node_leaf = 1

abbrev pub node_internal : ℕ
node_internal = 2

abbrev pub key_integer : ℕ
key_integer = 1

abbrev pub key_text : ℕ
key_text = 2

pub data IndexKey : Type 0 where
  integer : ℤ → IndexKey
  text : Text → IndexKey

pub record IndexEntry : Type 0 where
  pub key : IndexKey
  pub row_id : RowId

pub data BTreeNode : Type 0 where
  leaf : Option PageId → List IndexEntry → BTreeNode
  internal : List IndexKey → List PageId → BTreeNode

pub record SplitResult : Type 0 where
  pub separator : IndexKey
  pub right_page_id : PageId

-- `Ordering::then`
abbrev pub then_cmp : Ordering → Ordering → Ordering
then_cmp eq second = second
then_cmp lt second = lt
then_cmp gt second = gt

-- The derived orders: a number before a text, numbers by value, texts by their bytes.
unfoldable pub cmp_int : ℤ → ℤ → Ordering
cmp_int (pos a) (pos b) = compare a b
cmp_int (pos a) (negsuc b) = gt
cmp_int (negsuc a) (pos b) = lt
cmp_int (negsuc a) (negsuc b) = compare b a

unfoldable pub cmp_text : Text → Text → Ordering
cmp_text [] [] = eq
cmp_text [] (y ∷ ys) = lt
cmp_text (x ∷ xs) [] = gt
cmp_text (x ∷ xs) (y ∷ ys) = then_cmp (compare x y) (cmp_text xs ys)

unfoldable pub cmp_key : IndexKey → IndexKey → Ordering
cmp_key (integer a) (integer b) = cmp_int a b
cmp_key (integer a) (text t) = lt
cmp_key (text s) (integer b) = gt
cmp_key (text s) (text t) = cmp_text s t

unfoldable pub cmp_row : RowId → RowId → Ordering
cmp_row a b = then_cmp (compare a.page_id b.page_id) (compare a.slot_id b.slot_id)

unfoldable pub compare_entry : IndexEntry → IndexEntry → Ordering
compare_entry left right = then_cmp (cmp_key left.key right.key) (cmp_row left.row_id right.row_id)

abbrev pub is_less : Ordering → Bool
is_less lt = true
is_less eq = false
is_less gt = false

-- `key > separator`
unfoldable pub is_above : IndexKey → IndexKey → Bool
is_above key separator = is_less (cmp_key separator key)

-- `keys.partition_point(|separator| key > separator)`: on keys in order, the separators below the key
-- are the first ones.
unfoldable pub child_index_for_key : List IndexKey → IndexKey → ℕ
child_index_for_key [] key = 0
child_index_for_key (s ∷ keys) key = elim (is_above key s) [
  | true ↦ child_index_for_key keys key + 1
  | false ↦ 0
]

-- The entry goes before the first that is not below it: on entries in order, where `binary_search_by`
-- finds an equal one, or the place between the smaller and the greater ones.
unfoldable pub insert_leaf_entry : IndexEntry → List IndexEntry → List IndexEntry
insert_leaf_entry entry [] = entry ∷ []
insert_leaf_entry entry (e ∷ entries) = elim (is_less (compare_entry e entry)) [
  | true ↦ e ∷ insert_leaf_entry entry entries
  | false ↦ entry ∷ e ∷ entries
]

unfoldable pub validate_internal_shape : List IndexKey → List PageId → DbResult (Unit {0})
validate_internal_shape keys children = reject (not (length children == length keys + 1)) corruption
