-- ===== src/Tx/IndexStages.antt =====
-- The index operations of a transaction, crates/rdbms_tx/src/lib.rs, and the store that it holds.
use rdbms.Prelude.{ℕ, zero, suc, Bool, Option, none, some, List}
use rdbms.Core.{PageId, RelationId, RowId, panicked}
use rdbms.Exec.{Exec, lift, ◌>>=◌, ◌>>◌}
use rdbms.Vfs.File.{VfsFile}
use rdbms.Catalog.Format.{Text}
use rdbms.Index.Format.{
  IndexKey, IndexEntry, BTreeNode, leaf, internal, SplitResult, insert_leaf_entry,
  validate_internal_shape, child_index_for_key,
}
use rdbms.Index.Tree.{
  BPlusTreePageStore, load_node, store_node, initialize_root, put_leaf, put_internal, after_child,
  insert_recursive, grow_root, insert, at_index,
}
use rdbms.Tx.State.{Transaction}
use rdbms.Tx.Index.{transaction_store, create_index, note_root, insert_index_entry}
use rdbms.Tx.Stages.{
  Stages, Stages-bind, Stages-if, Stages-lift, staging, mark_catalog_dirty-Stages,
}

module _ (vfs : VfsFile) (is_utf8 : List ℕ → Bool) where
  load_node-Stages : (id : PageId) → Stages (load_node is_utf8 (transaction_store vfs) id)
  unfolding load_node transaction_store
  load_node-Stages id = search staging

  store_node-Stages :
      (id : PageId) (node : BTreeNode) → Stages (store_node is_utf8 (transaction_store vfs) id node)
  unfolding store_node transaction_store
  store_node-Stages id node = search staging

  allocate-Stages : Stages (BPlusTreePageStore.allocate_page (transaction_store vfs))
  unfolding transaction_store
  allocate-Stages = search staging

  put_leaf-Stages :
      (id : PageId) (nxt : Option PageId) (es : List IndexEntry)
      → Stages (put_leaf is_utf8 (transaction_store vfs) id nxt es)
  unfolding put_leaf
  put_leaf-Stages id nxt es =
      search (staging, Stages-if, store_node-Stages, allocate-Stages) depth 14

  put_internal-Stages :
      (id : PageId) (keys : List IndexKey) (children : List PageId)
      → Stages (put_internal is_utf8 (transaction_store vfs) id keys children)
  unfolding put_internal
  put_internal-Stages id keys children =
      search (staging, Stages-if, store_node-Stages, allocate-Stages) depth 14

  after_child-Stages :
      (id : PageId) (keys : List IndexKey) (children : List PageId) (i : ℕ)
      (split : Option SplitResult)
      → Stages (after_child is_utf8 (transaction_store vfs) id keys children i split)
  after_child-Stages id keys children i none = search staging
  after_child-Stages id keys children i (some split) = put_internal-Stages id _ _

  node-Stages :
      (on_leaf : Option PageId → List IndexEntry → Exec (Transaction vfs.File) (Option SplitResult))
      (on_internal : List IndexKey → List PageId → Exec (Transaction vfs.File) (Option SplitResult))
      (node : BTreeNode)
      → ((nxt : Option PageId) (es : List IndexEntry) → Stages (on_leaf nxt es))
      → ((keys : List IndexKey) (children : List PageId) → Stages (on_internal keys children))
      → Stages (elim node as (λ _. Exec (Transaction vfs.File) (Option SplitResult)) [
        | leaf nxt es ↦ on_leaf nxt es
        | internal keys children ↦ on_internal keys children
      ])
  node-Stages on_leaf on_internal (leaf nxt es) g h = g nxt es
  node-Stages on_leaf on_internal (internal keys children) g h = h keys children

  insert_recursive-Stages :
      (fuel : ℕ) (id : PageId) (e : IndexEntry)
      → Stages (insert_recursive is_utf8 (transaction_store vfs) fuel id e)
  unfolding insert_recursive
  insert_recursive-Stages zero id e = Stages-lift panicked
  insert_recursive-Stages (suc fuel) id e =
      Stages-bind (load_node is_utf8 (transaction_store vfs) id) _ (load_node-Stages id) (λ node.
        node-Stages
          (λ nxt es. put_leaf is_utf8 (transaction_store vfs) id nxt (insert_leaf_entry e es))
          (λ keys children. do
            lift (validate_internal_shape keys children)
            child ← lift (at_index (child_index_for_key keys e.key) children)
            split ← insert_recursive is_utf8 (transaction_store vfs) fuel child e
            after_child is_utf8 (transaction_store vfs) id keys children
                (child_index_for_key keys e.key) split)
          node (λ nxt es. put_leaf-Stages id nxt (insert_leaf_entry e es))
          (λ keys children.
            search (staging, after_child-Stages, insert_recursive-Stages fuel) depth 14))

  grow_root-Stages :
      (id : PageId) (split : Option SplitResult)
      → Stages (grow_root is_utf8 (transaction_store vfs) id split)
  grow_root-Stages id none = search staging
  grow_root-Stages id (some split) = search (staging, store_node-Stages, allocate-Stages) depth 14

  pub create_index-Stages :
      (name : Text) (table_id : RelationId) (column_name : Text)
      → Stages (create_index vfs is_utf8 name table_id column_name)
  unfolding create_index initialize_root
  create_index-Stages name table_id column_name =
      search (staging, store_node-Stages, mark_catalog_dirty-Stages) depth 14

  pub insert_index_entry-Stages :
      (fuel : ℕ) (index_id : RelationId) (key : IndexKey) (row_id : RowId)
      → Stages (insert_index_entry vfs is_utf8 fuel index_id key row_id)
  unfolding insert_index_entry insert note_root
  insert_index_entry-Stages fuel index_id key row_id =
      search
        (staging, Stages-if, insert_recursive-Stages, grow_root-Stages, mark_catalog_dirty-Stages)
        depth 16
