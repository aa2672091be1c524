-- ===== src/Tx/Isolation.antt =====
-- Transactions and the one writer of their store, crates/rdbms_tx/src/lib.rs.
use rdbms.Prelude.{ℕ, ◌≡◌, refl, ap, ◌∙◌, arith, Bool, true, false, List, []}
use rdbms.Core.{retryable, RelationId, RowId, DbResult, ok, err}
use rdbms.Exec.{bind-post, Exec, gets, modify, ◌>>=◌}
use rdbms.Vfs.File.{VfsFile}
use rdbms.Catalog.Format.{Text, ColumnDef}
use rdbms.Index.Format.{IndexKey}
use rdbms.Tx.State.{
  on_manager, active, Transaction, TransactionalStore, ensure_active, dropped, finish_writer,
  allocate_tx_id, begin, commit_body, commit, rollback_body, rollback,
}
use rdbms.Tx.Work.{register_extension, create_table, insert_row}
use rdbms.Tx.Index.{create_index, insert_index_entry}
use rdbms.Tx.Stages.{Stages, create_table-Stages, register_extension-Stages, insert_row-Stages}
use rdbms.Tx.IndexStages.{create_index-Stages, insert_index_entry-Stages}

module _ (vfs : VfsFile) where
  open vfs use {File}

  pub begin_inv :
      (m : TransactionalStore File) (t : Transaction File)
      → (begin vfs m).0 ≡ ok t
      → (m.active_writer ≡ false)
        × (t.manager ≡ (begin vfs m).1)
        × (t.manager.active_writer ≡ true)
        × (t.manager.store ≡ m.store)
        × (t.state ≡ active)
        × (t.dirty_pages ≡ [])
        × (t.tx_id ≡ m.next_tx_id)
        × (t.working_catalog ≡ m.store.catalog)
  unfolding begin allocate_tx_id
  begin_inv m t h = ground arith

  pub dropped_active :
      (t : Transaction File) → t.state ≡ active → dropped t ≡ finish_writer t.manager
  unfolding dropped
  dropped_active t h = rw h refl

  -- Actions that keep the state of a transaction, and those after which the writer is free.
  record Goes {A : Type 0} (m : Exec (Transaction File) A) : Type 0 where
    keeps : (t : Transaction File) → (m t).1.state ≡ t.state

  pub record Frees {A : Type 0} (m : Exec (Transaction File) A) : Type 0 where
    pub frees : (t : Transaction File) → t.state ≡ active → (dropped (m t).1).active_writer ≡ false

  Goes-gets : {A : Type 0} (f : Transaction File → DbResult A) → Goes (gets f)
  Goes-gets f = record { keeps = λ t. refl }

  Goes-manager : {A : Type 0} (m : Exec (TransactionalStore File) A) → Goes (on_manager m)
  Goes-manager m = record { keeps = λ t. refl }

  Frees-bind :
      {A B : Type 0} (m : Exec (Transaction File) A) (k : A → Exec (Transaction File) B)
      → Goes m
      → ((a : A) → Frees (k a))
      → Frees (m >>= k)
  Frees-bind m k x y = record {
    frees = λ t h.
        bind-post (λ u. (dropped u).active_writer ≡ false) m k t
          (ap (λ (s : TransactionalStore File). s.active_writer)
            (dropped_active (m t).1 (x.keeps t ∙ h)))
          (λ a. (y a).frees (m t).1 (x.keeps t ∙ h));
  }

  Frees-done :
      (g : Transaction File → Transaction File)
      → ((t : Transaction File) → ((g t).manager.active_writer ≡ false))
      → Frees (modify g)
  unfolding dropped
  Frees-done g h = record { frees = λ t _. ground (arith, h t) }

  pub commit_body-Frees : Frees (commit_body vfs)
  unfolding commit_body
  commit_body-Frees = search (Frees-bind, Goes-gets, Goes-manager, Frees-done) depth 14

  rollback_body-Frees : Frees (rollback_body vfs)
  unfolding rollback_body ensure_active dropped
  rollback_body-Frees = record { frees = λ t h. ground (arith, h) }

module _ (vfs : VfsFile) (is_utf8 : List ℕ → Bool) where
  open vfs use {File}

  -- A transaction that was begun, after any calls of its methods, failed ones included.
  pub data Alive : Transaction File → Type 0 where
    at_begin :
        (m : TransactionalStore File) (t : Transaction File) → (begin vfs m).0 ≡ ok t → Alive t
    registered :
        {t : Transaction File} (name : Text) (abi_version : ℕ) (kind : Text)
        → Alive t
        → Alive (register_extension name abi_version kind t).1
    with_table :
        {t : Transaction File} (name : Text) (columns : List ColumnDef)
        → Alive t
        → Alive (create_table name columns t).1
    with_row :
        {t : Transaction File} (relation_id : RelationId) (bytes : List ℕ)
        → Alive t
        → Alive (insert_row vfs relation_id bytes t).1
    with_index :
        {t : Transaction File} (name : Text) (table_id : RelationId) (column_name : Text)
        → Alive t
        → Alive (create_index vfs is_utf8 name table_id column_name t).1
    with_entry :
        {t : Transaction File} (fuel : ℕ) (index_id : RelationId) (key : IndexKey) (row_id : RowId)
        → Alive t
        → Alive (insert_index_entry vfs is_utf8 fuel index_id key row_id t).1

  abbrev HasWriter : Transaction File → Type 0
  HasWriter t = (t.state ≡ active) × (t.manager.active_writer ≡ true)

  Stages-HasWriter :
      {A : Type 0} (m : Exec (Transaction File) A) (t : Transaction File)
      → Stages m
      → HasWriter t
      → HasWriter (m t).1
  Stages-HasWriter m t stages (state, writer) =
      let (manager, id, same) = stages.keeps t in
      (same ∙ state, ap (λ (s : TransactionalStore File). s.active_writer) manager ∙ writer)

  Alive-HasWriter : {t : Transaction File} → Alive t → HasWriter t
  Alive-HasWriter (at_begin m t h) = ((begin_inv vfs m t h).4, (begin_inv vfs m t h).2)
  Alive-HasWriter (registered name abi_version kind a) =
      Stages-HasWriter _ _ (register_extension-Stages name abi_version kind) (Alive-HasWriter a)
  Alive-HasWriter (with_table name columns a) =
      Stages-HasWriter _ _ (create_table-Stages name columns) (Alive-HasWriter a)
  Alive-HasWriter (with_row relation_id bytes a) =
      Stages-HasWriter _ _ (insert_row-Stages vfs relation_id bytes) (Alive-HasWriter a)
  Alive-HasWriter (with_index name table_id column_name a) =
      Stages-HasWriter _ _ (create_index-Stages vfs is_utf8 name table_id column_name)
        (Alive-HasWriter a)
  Alive-HasWriter (with_entry fuel index_id key row_id a) =
      Stages-HasWriter _ _ (insert_index_entry-Stages vfs is_utf8 fuel index_id key row_id)
        (Alive-HasWriter a)

  -- While a transaction that was begun has not ended, whatever it has staged, no other can begin; a
  -- commit, a rollback and a drop, whatever they return and on whatever files, free the writer.
  pub begin-one_writer :
      (t : Transaction File)
      → Alive t
      → (begin vfs t.manager ≡ (err retryable, t.manager))
        × ((commit vfs t).1.active_writer ≡ false)
        × ((rollback vfs t).1.active_writer ≡ false)
        × ((dropped t).active_writer ≡ false)
  unfolding commit rollback
  begin-one_writer t alive =
      let (state, writer) = Alive-HasWriter alive in
      (
        unfold begin in rw writer refl,
        (commit_body-Frees vfs).frees t state,
        (rollback_body-Frees vfs).frees t state,
        ap (λ (s : TransactionalStore File). s.active_writer) (dropped_active vfs t state),
      )
