-- ===== src/Tx/Failed.antt =====
-- What a call that fails leaves of the store: the methods of crates/rdbms_tx/src/lib.rs that run in a
-- transaction of their own.
use rdbms.Prelude.{ℕ, ◌≡◌, ◌⊎◌, inl, inr, refl, ap, ◌∙◌, arith, Bool, false, sym, List, [], ◌∷◌}
use rdbms.Core.{RelationId, RowId, DbResult, DbError, ok, err, panicked}
use rdbms.Exec.{Exec, bind-post, bind-err, gets, lift, ◌>>◌}
use rdbms.Page.Format.{Page}
use rdbms.Vfs.File.{VfsFile}
use rdbms.Vfs.PageFile.{write_page}
use rdbms.Wal.Format.{image_of_page, commit_tx}
use rdbms.Wal.Log.Writer.{append, sync_wal}
use rdbms.Catalog.Format.{Text, ColumnDef}
use rdbms.Catalog.Store.{CatalogStore}
use rdbms.Tx.Pages.{values}
use rdbms.Tx.State.{
  Transaction, TransactionalStore, active, begin, allocate_tx_id, ensure_active, dropped,
  finish_writer, on_wal, on_data, on_manager, log_pages, write_pages, commit_body, commit,
}
use rdbms.Tx.Work.{
  create_table, insert_row, register_extension, autocommit, or_dropped, or_not_begun,
  create_table_autocommit, insert_row_autocommit, register_extension_autocommit,
}
use rdbms.Tx.Stages.{Stages, create_table-Stages, register_extension-Stages, insert_row-Stages}
use rdbms.Tx.Isolation.{begin_inv, commit_body-Frees, dropped_active}

-- The methods that begin, work and commit in one call.
pub data Call : Type 0 where
  create_table_call : Text → List ColumnDef → Call
  insert_row_call : RelationId → List ℕ → Call
  register_extension_call : Text → ℕ → Text → Call

abbrev pub Answer : Call → Type 0
Answer (create_table_call name columns) = RelationId
Answer (insert_row_call relation_id bytes) = RowId
Answer (register_extension_call name abi_version kind) = Bool

module _ (vfs : VfsFile) where
  open vfs use {File, sync_data}

  abbrev pub call : (c : Call) → Exec (TransactionalStore File) (Answer c)
  call (create_table_call name columns) = create_table_autocommit vfs name columns
  call (insert_row_call relation_id bytes) = insert_row_autocommit vfs relation_id bytes
  call (register_extension_call name abi_version kind) =
      register_extension_autocommit vfs name abi_version kind

  -- What a call does between its `begin` and its `commit`.
  abbrev pub work_of : (c : Call) → Exec (Transaction File) (Answer c)
  work_of (create_table_call name columns) = create_table name columns
  work_of (insert_row_call relation_id bytes) = insert_row vfs relation_id bytes
  work_of (register_extension_call name abi_version kind) = register_extension name abi_version kind

  -- The images of the transaction, its commit marker, and the sync of the log.
  abbrev pub log_commit : Transaction File → Exec (TransactionalStore File) (Unit {0})
  log_commit t = do
    log_pages vfs t.tx_id (values t.dirty_pages)
    on_wal (append vfs (commit_tx t.tx_id))
    on_wal (sync_wal vfs)

  log_pages_store :
      (tx_id : ℕ) (pages : List Page) (m : TransactionalStore File)
      → (log_pages vfs tx_id pages m).1.store ≡ m.store
  unfolding log_pages
  log_pages_store tx_id [] m = refl
  log_pages_store tx_id (page ∷ pages) m =
      bind-post (λ (s : TransactionalStore File). s.store ≡ m.store)
        (lift (image_of_page tx_id page)) _ m refl
        (λ image.
          bind-post (λ (s : TransactionalStore File). s.store ≡ m.store) (on_wal (append vfs image))
            _ m refl (λ _. log_pages_store tx_id pages _))

  write_pages_catalog :
      (pages : List Page) (m : TransactionalStore File)
      → (write_pages vfs pages m).1.store.catalog ≡ m.store.catalog
  unfolding write_pages
  write_pages_catalog [] m = refl
  write_pages_catalog (page ∷ pages) m =
      bind-post (λ (s : TransactionalStore File). s.store.catalog ≡ m.store.catalog)
        (on_data (write_page vfs page)) _ m refl (λ _. write_pages_catalog pages _)

  -- A store with the catalog and the data file of another, where the data file may differ once D holds.
  abbrev IsLeft : Type 0 → TransactionalStore File → TransactionalStore File → Type 0
  IsLeft D m s = (s.store.catalog ≡ m.store.catalog) × ((s.store.page_file ≡ m.store.page_file) ⊎ D)

  IsLeft-store : (D : Type 0) (m s : TransactionalStore File) → s.store ≡ m.store → IsLeft D m s
  IsLeft-store D m s h = (
    ap (λ (x : CatalogStore File). x.catalog) h,
    inl (ap (λ (x : CatalogStore File). x.page_file) h),
  )

  commit_body-IsLeft :
      (t : Transaction File) (e : DbError)
      → t.state ≡ active
      → (commit_body vfs t).0 ≡ err e
      → IsLeft ((log_commit t t.manager).0 ≡ ok tt) t.manager (commit_body vfs t).1.manager
  unfolding commit_body ensure_active
  commit_body-IsLeft t e state failed =
      let D = (log_commit t t.manager).0 ≡ ok tt in
      let G : Transaction File → Type 0 = λ u. IsLeft D t.manager u.manager in
      let pages = values t.dirty_pages in
      let m1 = (log_pages vfs t.tx_id pages t.manager).1 in
      let m2 = (on_wal (append vfs (commit_tx t.tx_id)) m1).1 in
      let m3 = (on_wal (sync_wal vfs) m2).1 in
      let logged = log_pages_store t.tx_id pages t.manager in
      let written : (write_pages vfs pages m3).1.store.catalog ≡ t.manager.store.catalog =
        write_pages_catalog pages m3 ∙ ap (λ (x : CatalogStore File). x.catalog) logged in
      bind-err G (gets ensure_active) _ t e failed (refl, inl refl)
        (λ _ _ f1.
          bind-err G (on_manager (log_pages vfs t.tx_id pages)) _ t e f1
            (IsLeft-store D t.manager m1 logged)
            (λ _ h1 f2.
              bind-err G (on_manager (on_wal (append vfs (commit_tx t.tx_id)))) _
                (record t { manager = m1 }) e f2 (IsLeft-store D t.manager m2 logged)
                (λ _ h2 f3.
                  bind-err G (on_manager (on_wal (sync_wal vfs))) _ (record t { manager = m2 }) e f3
                    (IsLeft-store D t.manager m3 logged)
                    (λ _ h3 f4.
                      let done : D = rw (h1, h2) h3 in
                      bind-err G (on_manager (write_pages vfs pages)) _ (record t { manager = m3 })
                        e f4 (written, inr done)
                        (λ _ h4 f5.
                          bind-err G (on_manager (on_data sync_data)) _
                            (record t { manager = (write_pages vfs pages m3).1 }) e f5
                            (written, inr done) (λ _ h5 f6. cc))))))

  dropped_store : (u : Transaction File) → (dropped u).store ≡ u.manager.store
  unfolding dropped
  dropped_store u = ground arith

  commit-IsLeft :
      (t : Transaction File) (e : DbError)
      → t.state ≡ active
      → (commit vfs t).0 ≡ err e
      → IsLeft ((log_commit t t.manager).0 ≡ ok tt) t.manager (commit vfs t).1
  unfolding commit
  commit-IsLeft t e state failed =
      let left = commit_body-IsLeft t e state failed in
      rw (dropped_store (commit_body vfs t).1) left

  commit-Frees : (t : Transaction File) → t.state ≡ active → (commit vfs t).1.active_writer ≡ false
  unfolding commit
  commit-Frees t state = (commit_body-Frees vfs).frees t state

  begin_failed :
      (m : TransactionalStore File) (e : DbError)
      → (begin vfs m).0 ≡ err e
      → ((begin vfs m).1.active_writer ≡ m.active_writer) × ((begin vfs m).1.store ≡ m.store)
  unfolding begin allocate_tx_id
  begin_failed m e h = ground arith

  after_commit :
      {A : Type 0} (a : A) (u : Transaction File) (e : DbError)
      → (or_dropped vfs (ok a) u).0 ≡ err e
      → ((commit vfs u).0 ≡ err e) × ((or_dropped vfs (ok a) u).1 ≡ (commit vfs u).1)
  after_commit a u e h = ground arith

  -- The transaction did its work, logged its images and its commit marker, and synced the log.
  abbrev pub IsLogged : {A : Type 0} → Exec (Transaction File) A → Transaction File → Type 0
  IsLogged {A} work t =
      (a : A) × ((work t).0 ≡ ok a) × ((log_commit (work t).1 (work t).1.manager).0 ≡ ok tt)

  IsLeft-map :
      (D E : Type 0) (m s : TransactionalStore File) → (D → E) → IsLeft D m s → IsLeft E m s
  IsLeft-map D E m s f (catalog, inl same) = (catalog, inl same)
  IsLeft-map D E m s f (catalog, inr d) = (catalog, inr (f d))

  IsLeft-rebase :
      (D : Type 0) (m n s : TransactionalStore File)
      → m.store ≡ n.store
      → IsLeft D m s
      → IsLeft D n s
  IsLeft-rebase D m n s h left = rw h at left

  after_work :
      {A : Type 0} (work : Exec (Transaction File) A) (t : Transaction File) (e : DbError)
      (r : DbResult A)
      → Stages work
      → t.state ≡ active
      → (work t).0 ≡ r
      → (or_dropped vfs r (work t).1).0 ≡ err e
      → ((or_dropped vfs r (work t).1).1.active_writer ≡ false)
        × IsLeft (IsLogged work t) t.manager (or_dropped vfs r (work t).1).1
  after_work work t e (ok a) stages state worked failed =
      let (kept, _, still) = stages.keeps t in
      let (answer, store) = after_commit a (work t).1 e failed in
      let left = commit-IsLeft (work t).1 e (still ∙ state) answer in
      let u = (work t).1 in
      let left' =
        IsLeft-map ((log_commit u u.manager).0 ≡ ok tt) (IsLogged work t) u.manager (commit vfs u).1
          (λ d. (a, worked, d)) left in
      let same = ap (λ (s : TransactionalStore File). s.store) kept in
      rw store (
        commit-Frees u (still ∙ state),
        IsLeft-rebase (IsLogged work t) u.manager t.manager (commit vfs u).1 same left',
      )
  after_work work t e (err x) stages state worked failed =
      let (kept, _, still) = stages.keeps t in
      rw (dropped_active vfs (work t).1 (still ∙ state)) (
        refl,
        IsLeft-store (IsLogged work t) t.manager (finish_writer (work t).1.manager)
            (ap (λ (s : TransactionalStore File). s.store) kept),
      )
  after_work work t e panicked stages state worked failed = cc

  after_begin :
      {A : Type 0} (work : Exec (Transaction File) A) (m : TransactionalStore File) (e : DbError)
      (r : DbResult (Transaction File))
      → Stages work
      → (begin vfs m).0 ≡ r
      → (or_not_begun vfs r (begin vfs m).1 work).0 ≡ err e
      → ((or_not_begun vfs r (begin vfs m).1 work).1.active_writer ≡ m.active_writer)
        × IsLeft
            ((t : Transaction File) × ((begin vfs m).0 ≡ ok t) × IsLogged work t)
            m
            (or_not_begun vfs r (begin vfs m).1 work).1
  after_begin work m e (ok t) stages started failed =
      let (free, _, _, store, state, _, _, _) = begin_inv vfs m t started in
      let (writer, left) = after_work work t e (work t).0 stages state refl failed in
      let s = (or_dropped vfs (work t).0 (work t).1).1 in
      let D = (u : Transaction File) × ((begin vfs m).0 ≡ ok u) × IsLogged work u in
      let left' = IsLeft-map (IsLogged work t) D t.manager s (λ d. (t, started, d)) left in
      (writer ∙ sym free, IsLeft-rebase D t.manager m s store left')
  after_begin work m e (err x) stages started failed =
      let (writer, store) = begin_failed m x started in
      let D = (u : Transaction File) × ((begin vfs m).0 ≡ ok u) × IsLogged work u in
      (writer, IsLeft-store D m (begin vfs m).1 store)
  after_begin work m e panicked stages started failed = cc

  -- A method that begins, works and commits in one call and returns an error leaves the writer as it
  -- was and the committed catalog too. It leaves the data file as well, unless the transaction began,
  -- did its work, logged its images and its commit marker, and synced the log.
  pub autocommit-failed :
      (c : Call) (m : TransactionalStore File) (e : DbError)
      → (call c m).0 ≡ err e
      → ((call c m).1.active_writer ≡ m.active_writer)
        × ((call c m).1.store.catalog ≡ m.store.catalog)
        × (((call c m).1.store.page_file ≡ m.store.page_file)
            ⊎ ((t : Transaction File) × ((begin vfs m).0 ≡ ok t) × IsLogged (work_of c) t))
  unfolding autocommit create_table_autocommit insert_row_autocommit register_extension_autocommit
  autocommit-failed (create_table_call name columns) m e failed =
      let stages = create_table-Stages name columns in
      let (writer, (catalog, file)) =
        after_begin (create_table name columns) m e (begin vfs m).0 stages refl failed in
      (writer, catalog, file)
  autocommit-failed (insert_row_call relation_id bytes) m e failed =
      let stages = insert_row-Stages vfs relation_id bytes in
      let (writer, (catalog, file)) =
        after_begin (insert_row vfs relation_id bytes) m e (begin vfs m).0 stages refl failed in
      (writer, catalog, file)
  autocommit-failed (register_extension_call name abi_version kind) m e failed =
      let stages = register_extension-Stages name abi_version kind in
      let (writer, (catalog, file)) =
        after_begin (register_extension name abi_version kind) m e (begin vfs m).0 stages refl
          failed in
      (writer, catalog, file)
