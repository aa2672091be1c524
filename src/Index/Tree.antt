-- ===== src/Index/Tree.antt =====
-- crates/rdbms_index/src/lib.rs: the page store that the tree works on, insertion and lookup.
use Prim.Native.Nat.Ordering.{lt, eq, gt}
use rdbms.Prelude.{
  ℕ, zero, suc, ◌+◌, ◌/◌, Bool, true, false, Option, none, some, List, [], ◌∷◌, ◌++◌, length, take,
  drop, leb, if◌then◌else◌,
}
use rdbms.Core.{PageId, RowId, DbResult, ok, err, panicked, corruption}
use rdbms.Exec.{Exec, pure, lift, ◌>>=◌, ◌>>◌}
use rdbms.Page.Format.{Page}
use rdbms.Index.Format.{
  max_keys, IndexKey, IndexEntry, BTreeNode, leaf, internal, SplitResult, cmp_key,
  child_index_for_key, insert_leaf_entry, validate_internal_shape,
}
use rdbms.Index.Codec.{node_to_page, node_from_page}

pub record BPlusTreePageStore (S : Type 0) : Type 0 where
  pub load_page : PageId → Exec S Page
  pub store_page : Page → Exec S (Unit {0})
  pub allocate_page : Exec S PageId

-- `xs[i]`
unfoldable pub at_index {ℓ} : {A : Type ℓ} → ℕ → List A → DbResult A
at_index i [] = panicked
at_index zero (x ∷ xs) = ok x
at_index (suc i) (x ∷ xs) = at_index i xs

-- `xs.insert(i, x)`, at a place within the list.
unfoldable pub insert_at {ℓ} : {A : Type ℓ} → ℕ → A → List A → List A
insert_at zero x ys = x ∷ ys
insert_at (suc i) x [] = x ∷ []
insert_at (suc i) x (y ∷ ys) = y ∷ insert_at i x ys

-- What the lookup does on the entries of one leaf: the rows it adds, and whether it met a greater key.
unfoldable pub scan_entries : IndexKey → List IndexEntry → List RowId × Bool
scan_entries key [] = ([], false)
scan_entries key (e ∷ entries) = elim (cmp_key e.key key) [
  | lt ↦ scan_entries key entries
  | eq ↦ (e.row_id ∷ (scan_entries key entries).0, (scan_entries key entries).1)
  | gt ↦ ([], true)
]

module _ {S : Type 0} (is_utf8 : List ℕ → Bool) (store : BPlusTreePageStore S) where
  -- `node_from_page(&store.load_page(page_id)?)?`
  unfoldable pub load_node : PageId → Exec S BTreeNode
  load_node page_id = store.load_page page_id >>= λ page. lift (node_from_page is_utf8 page)

  -- `store.store_page(node_to_page(page_id, node)?)?`
  unfoldable pub store_node : PageId → BTreeNode → Exec S (Unit {0})
  store_node page_id node = lift (node_to_page page_id node) >>= store.store_page

  unfoldable pub initialize_root : PageId → Exec S (Unit {0})
  initialize_root root_page_id = store_node root_page_id (leaf none [])

  -- A leaf with the new entry in it, split where it is too long.
  unfoldable pub put_leaf : PageId → Option PageId → List IndexEntry → Exec S (Option SplitResult)
  put_leaf page_id next_leaf entries =
      if leb (length entries) max_keys
      then (store_node page_id (leaf next_leaf entries) >> pure none)
      else do
        right_page_id ← store.allocate_page
        first ← lift (at_index 0 (drop (length entries / 2) entries))
        store_node page_id (leaf (some right_page_id) (take (length entries / 2) entries))
        store_node right_page_id (leaf next_leaf (drop (length entries / 2) entries))
        pure (some (record { separator = first.key; right_page_id = right_page_id }))

  -- An internal node with the new separator and child in it, split where it is too long.
  unfoldable pub put_internal : PageId → List IndexKey → List PageId → Exec S (Option SplitResult)
  put_internal page_id keys children =
      if leb (length keys) max_keys
      then (store_node page_id (internal keys children) >> pure none)
      else do
        separator ← lift (at_index (length keys / 2) keys)
        right_page_id ← store.allocate_page
        store_node page_id
            (internal (take (length keys / 2) keys) (take (length keys / 2 + 1) children))
        store_node right_page_id
            (internal (drop (length keys / 2 + 1) keys) (drop (length keys / 2 + 1) children))
        pure (some (record { separator = separator; right_page_id = right_page_id }))

  -- What the code does where the insertion into a child has returned.
  abbrev pub after_child :
      PageId → List IndexKey → List PageId → ℕ → Option SplitResult → Exec S (Option SplitResult)
  after_child page_id keys children i none = pure none
  after_child page_id keys children i (some split) =
      put_internal page_id (insert_at i split.separator keys)
        (insert_at (i + 1) split.right_page_id children)

  -- The recursion and the loops below have no bound in the source, so a page that is its own child
  -- makes them run on. Where the fuel ends the model stops, as a panic does.
  unfoldable pub insert_recursive : ℕ → PageId → IndexEntry → Exec S (Option SplitResult)
  insert_recursive zero page_id entry = lift panicked
  insert_recursive (suc fuel) page_id entry = load_node page_id >>= λ node. elim node [
    | leaf next_leaf entries ↦ put_leaf page_id next_leaf (insert_leaf_entry entry entries)
    | internal keys children ↦ do
      lift (validate_internal_shape keys children)
      child_page_id ← lift (at_index (child_index_for_key keys entry.key) children)
      split ← insert_recursive fuel child_page_id entry
      after_child page_id keys children (child_index_for_key keys entry.key) split
  ]

  -- A new root above the old one, where that was split.
  abbrev pub grow_root : PageId → Option SplitResult → Exec S PageId
  grow_root root_page_id none = pure root_page_id
  grow_root root_page_id (some split) = do
    new_root_page_id ← store.allocate_page
    store_node new_root_page_id
        (internal (split.separator ∷ []) (root_page_id ∷ split.right_page_id ∷ []))
    pure new_root_page_id

  unfoldable pub insert : ℕ → PageId → IndexEntry → Exec S PageId
  insert fuel root_page_id entry =
      insert_recursive fuel root_page_id entry >>= grow_root root_page_id

  unfoldable pub find_leaf : ℕ → PageId → IndexKey → Exec S PageId
  find_leaf zero page_id key = lift panicked
  find_leaf (suc fuel) page_id key = load_node page_id >>= λ node. elim node [
    | leaf next_leaf entries ↦ pure page_id
    | internal keys children ↦ do
      lift (validate_internal_shape keys children)
      child_page_id ← lift (at_index (child_index_for_key keys key) children)
      find_leaf fuel child_page_id key
  ]

  -- The walk along the leaves, with the rows found so far.
  unfoldable pub walk : ℕ → PageId → IndexKey → List RowId → Exec S (List RowId)
  walk zero page_id key row_ids = lift panicked
  walk (suc fuel) page_id key row_ids = load_node page_id >>= λ node. elim node [
    | leaf next_leaf entries ↦ elim (scan_entries key entries).1 [
      | true ↦ pure (row_ids ++ (scan_entries key entries).0)
      | false ↦ elim next_leaf [
        | none ↦ pure (row_ids ++ (scan_entries key entries).0)
        | some next_page_id ↦ walk fuel next_page_id key (row_ids ++ (scan_entries key entries).0)
      ]
    ]
    | internal keys children ↦ lift (err corruption)
  ]

  unfoldable pub lookup : ℕ → PageId → IndexKey → Exec S (List RowId)
  lookup fuel root_page_id key =
      find_leaf fuel root_page_id key >>= λ leaf_page_id. walk fuel leaf_page_id key []
