-- ===== src/Tx/State.antt =====
-- `TransactionalStore` and the life of a `Transaction`, crates/rdbms_tx/src/lib.rs.
use rdbms.Prelude.{ℕ, Bool, true, false, not, List, [], ◌∷◌, if◌then◌else◌}
use rdbms.Core.{TxId, DbResult, ok, err, panicked, user, retryable, reject, checked_add}
use rdbms.Exec.{Exec, pure, lift, gets, modify, ◌>>=◌, ◌>>◌}
use rdbms.Page.Format.{Page}
use rdbms.Vfs.File.{VfsFile}
use rdbms.Vfs.PageFile.{write_page}
use rdbms.Wal.Format.{begin_tx, commit_tx, abort_tx, image_of_page}
use rdbms.Wal.Log.Writer.{WalWriter, append, sync_wal}
use rdbms.Catalog.Format.{Catalog}
use rdbms.Catalog.Store.{CatalogStore}
use rdbms.Tx.Pages.{DirtyPages, values}

abbrev pub first_tx_id : TxId
first_tx_id = 1

pub data TransactionState : Type 0 where
  active committed rolled_back : TransactionState

abbrev pub is_active : TransactionState → Bool
is_active active = true
is_active committed = false
is_active rolled_back = false

pub record TransactionalStore (F : Type 0) : Type 0 where
  pub store : CatalogStore F
  pub wal : WalWriter F
  pub next_tx_id : ℕ
  pub active_writer : Bool

-- A transaction borrows the store that it was begun on: while it lives, the store is in it.
pub record Transaction (F : Type 0) : Type 0 where
  pub manager : TransactionalStore F
  pub tx_id : TxId
  pub working_catalog : Catalog
  pub dirty_pages : DirtyPages
  pub state : TransactionState

module _ {F : Type 0} where
  unfoldable pub new_store : CatalogStore F → WalWriter F → TransactionalStore F
  new_store store wal = record {
    store = store;
    wal = wal;
    next_tx_id = first_tx_id;
    active_writer = false;
  }

  unfoldable pub allocate_tx_id : Exec (TransactionalStore F) TxId
  allocate_tx_id = do
    tx_id ← gets (λ m. ok m.next_tx_id)
    next ← lift (checked_add tx_id 1 user)
    modify (λ m. record m { next_tx_id = next })
    pure tx_id

  abbrev pub finish_writer : TransactionalStore F → TransactionalStore F
  finish_writer m = record m { active_writer = false }

  unfoldable pub ensure_active : Transaction F → DbResult (Unit {0})
  ensure_active t = reject (not (is_active t.state)) user

  -- `Drop for Transaction`, and the store that is free again.
  unfoldable pub dropped : Transaction F → TransactionalStore F
  dropped t = if is_active t.state then finish_writer t.manager else t.manager

module _ {F A : Type 0} where
  abbrev pub on_manager : Exec (TransactionalStore F) A → Exec (Transaction F) A
  on_manager m t = ((m t.manager).0, record t { manager = (m t.manager).1 })

  abbrev pub on_wal : Exec (WalWriter F) A → Exec (TransactionalStore F) A
  on_wal m s = ((m s.wal).0, record s { wal = (m s.wal).1 })

  abbrev pub on_data : Exec F A → Exec (TransactionalStore F) A
  on_data m s = (
    (m s.store.page_file).0,
    record s { store = record s.store { page_file = (m s.store.page_file).1 } },
  )

  -- `if let Err(error) = …` in `begin`: a failed first append frees the writer again.
  abbrev pub or_finish : Exec (TransactionalStore F) A → Exec (TransactionalStore F) A
  or_finish m s = freed (m s).0 (m s).1
    where
      freed : DbResult A → TransactionalStore F → DbResult A × TransactionalStore F
      freed (ok a) s = (ok a, s)
      freed (err e) s = (err e, finish_writer s)
      freed panicked s = (panicked, s)

module _ (vfs : VfsFile) where
  open vfs use {File, sync_data}

  unfoldable pub begin : Exec (TransactionalStore File) (Transaction File)
  begin = do
    gets (λ m. reject m.active_writer retryable)
    tx_id ← allocate_tx_id
    modify (λ m. record m { active_writer = true })
    or_finish (on_wal (append vfs (begin_tx tx_id)))
    gets (λ m. ok (record {
      manager = m;
      tx_id = tx_id;
      working_catalog = m.store.catalog;
      dirty_pages = [];
      state = active;
    }))

  -- The two loops of `commit`.
  unfoldable pub log_pages : TxId → List Page → Exec (TransactionalStore File) (Unit {0})
  log_pages tx_id [] = pure tt
  log_pages tx_id (page ∷ pages) = do
    image ← lift (image_of_page tx_id page)
    on_wal (append vfs image)
    log_pages tx_id pages

  unfoldable pub write_pages : List Page → Exec (TransactionalStore File) (Unit {0})
  write_pages [] = pure tt
  write_pages (page ∷ pages) = do on_data (write_page vfs page); write_pages pages

  unfoldable pub commit_body : Exec (Transaction File) (Unit {0})
  commit_body = do
    gets ensure_active
    tx_id ← gets (λ t. ok t.tx_id)
    pages ← gets (λ t. ok (values t.dirty_pages))
    on_manager (log_pages tx_id pages)
    on_manager (on_wal (append vfs (commit_tx tx_id)))
    on_manager (on_wal (sync_wal vfs))
    on_manager (write_pages pages)
    on_manager (on_data sync_data)
    modify (λ t. record t {
      manager =
          finish_writer
            (record t.manager { store = record t.manager.store { catalog = t.working_catalog } });
      state = committed;
    })

  -- `commit` and `rollback` take the transaction, which is dropped when they return.
  unfoldable pub commit : Transaction File → DbResult (Unit {0}) × TransactionalStore File
  commit t = ((commit_body t).0, dropped (commit_body t).1)

  -- The log's answer is returned after the pages are discarded.
  unfoldable pub log_abort : TxId → Exec (TransactionalStore File) (Unit {0})
  log_abort tx_id = do on_wal (append vfs (abort_tx tx_id)); on_wal (sync_wal vfs)

  unfoldable pub rollback_body : Exec (Transaction File) (Unit {0})
  rollback_body = do
    gets ensure_active
    result ← gets (λ t. ok (log_abort t.tx_id t.manager))
    modify
        (λ t. record t { manager = finish_writer result.1; dirty_pages = []; state = rolled_back })
    lift result.0

  unfoldable pub rollback : Transaction File → DbResult (Unit {0}) × TransactionalStore File
  rollback t = ((rollback_body t).0, dropped (rollback_body t).1)
