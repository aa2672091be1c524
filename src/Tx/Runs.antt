-- ===== src/Tx/Runs.antt =====
-- The theorems of the transactions at small stores in memory.
use rdbms.Prelude.{take, Bool, ◌⊎◌, false, ℕ, ◌≡◌, refl, arith, true, List, [], ◌∷◌, length, All}
use rdbms.Core.{err, user, retryable, ok}
use rdbms.Page.Format.{page_size, heap}
use rdbms.Page.Ops.{new}
use rdbms.Page.New.{new-IsWellFormed}
use rdbms.Vfs.Memory.{memory, memory_laws, memory_healthy}
use rdbms.Wal.Format.{WalRecordKind, begin_tx, commit_tx, abort_tx, payload}
use rdbms.Wal.Log.Writer.{WalWriter}
use rdbms.Wal.Log.Layout.{stamped, log_bytes, log_len}
use rdbms.Recovery.Latest.{any_of, wins}
use rdbms.Recovery.Replay.{last_image, later}
use rdbms.Catalog.Format.{empty}
use rdbms.Tx.Pages.{DirtyPages, get_page, values}
use rdbms.Tx.State.{
  ensure_active, begin, rollback, dropped, TransactionalStore, active, Transaction, commit,
  log_pages,
}
use rdbms.Tx.Log.{begun, begin_ok, IsStaged, images}
use rdbms.Tx.Images.{bytes_of}
use rdbms.Wal.Log.Append.{IsLog}
use rdbms.Tx.Work.{create_table, autocommit, create_table_autocommit}
use rdbms.Tx.Isolation.{Alive, at_begin, with_table, begin-one_writer}
use rdbms.Tx.Failed.{Call, create_table_call, call, IsLogged, autocommit-failed}
use rdbms.Catalog.Meta.{validate_name}
use rdbms.Catalog.Change.{create_table_metadata}
use rdbms.Tx.Durable.{
  Restores, commit-durable, log_pages-atomic, log_pages-reused_id, commit-reused_id,
}

abbrev File : Type 0
File = List ℕ

abbrev staged : DirtyPages
staged = (1, new 1 heap) ∷ []

-- The store over a log, and the transaction 7 in it.
abbrev wal_of : List WalRecordKind → WalWriter File
wal_of ks = record { file = log_bytes (stamped 0 ks); allocator = record { next = log_len ks } }

abbrev sample : List WalRecordKind → Transaction File
sample ks = record {
  manager = record {
    store = record { page_file = []; catalog = empty };
    wal = wal_of ks;
    next_tx_id = 8;
    active_writer = true;
  };
  tx_id = 7;
  working_catalog = empty;
  dirty_pages = staged;
  state = active;
}

abbrev started : List WalRecordKind
started = begin_tx 7 ∷ []

abbrev aborted : List WalRecordKind
aborted = begin_tx 7 ∷ abort_tx 7 ∷ begin_tx 7 ∷ []

staged-IsStaged : All IsStaged staged
staged-IsStaged =
    let (well, same, x, y) = new-IsWellFormed 1 heap (omega arith) in
    (record { type = heap; well = well; named = same; room = omega arith }, tt)

new_sized : length (new 1 heap).bytes ≡ page_size
new_sized = (new-IsWellFormed 1 heap (omega arith)).0.page.sized

commit-durable_example :
    ((commit memory (sample started)).0 ≡ ok tt)
    × ((commit memory (sample started)).1.store.catalog ≡ empty)
    × Restores memory memory_laws memory_healthy
        (commit memory (sample started)).1.wal.file
        []
        (λ id.
          later
            (last_image (stamped 0 started) (stamped 0 started) id)
            (bytes_of (get_page id staged)))
unfolding log_len payload images any_of wins
commit-durable_example =
    commit-durable memory memory_laws memory_healthy (sample started) started [] refl (omega arith)
      staged-IsStaged (tt, tt) ((omega arith, tt), refl, refl) (tt, tt) refl
      (omega (arith, new_sized))

log_pages-atomic_example :
    ((log_pages memory 7 (values (take 1 staged)) (sample started).manager).0 ≡ ok tt)
    × Restores memory memory_laws memory_healthy
        (log_pages memory 7 (values (take 1 staged)) (sample started).manager).1.wal.file
        []
        (last_image (stamped 0 started) (stamped 0 started))
unfolding log_len payload images any_of wins take
log_pages-atomic_example =
    log_pages-atomic memory memory_laws memory_healthy (sample started) started 1 [] (omega arith)
      staged-IsStaged ((omega arith, tt), refl, refl) (tt, tt) refl (omega (arith, new_sized))

-- A log in which an earlier session has committed the id.
abbrev kept : List WalRecordKind
kept = begin_tx 7 ∷ commit_tx 7 ∷ begin_tx 7 ∷ []

log_pages-reused_id_example :
    ((log_pages memory 7 (values (take 1 staged)) (sample kept).manager).0 ≡ ok tt)
    × Restores memory memory_laws memory_healthy
        (log_pages memory 7 (values (take 1 staged)) (sample kept).manager).1.wal.file
        []
        (λ id.
          later
            (last_image (stamped 0 kept) (stamped 0 kept) id)
            (bytes_of (get_page id (take 1 staged))))
unfolding log_len payload images any_of wins take
log_pages-reused_id_example =
    log_pages-reused_id memory memory_laws memory_healthy (sample kept) kept 1 [] (omega arith)
      staged-IsStaged (tt, tt) ((omega arith, (omega arith, (omega arith, tt))), refl, refl)
      (tt, (tt, (tt, tt))) refl (omega (arith, new_sized))

commit-reused_id_example :
    ((commit memory (sample aborted)).0 ≡ ok tt)
    × Restores memory memory_laws memory_healthy
        (commit memory (sample aborted)).1.wal.file
        []
        (last_image (stamped 0 aborted) (stamped 0 aborted))
unfolding log_len payload images any_of wins
commit-reused_id_example =
    commit-reused_id memory memory_laws memory_healthy (sample aborted) aborted [] refl
      (omega arith) staged-IsStaged ((omega arith, (omega arith, (omega arith, tt))), refl, refl)
      (tt, (tt, (tt, tt))) refl (omega (arith, new_sized))

-- A store that is free, and the transaction that it begins.
abbrev free : TransactionalStore File
free = record {
  store = record { page_file = []; catalog = empty };
  wal = wal_of [];
  next_tx_id = 1;
  active_writer = false;
}

abbrev first : Transaction File
first = begun memory memory_laws memory_healthy free

free-begins :
    ((begin memory free).0 ≡ ok first)
    × IsLog memory memory_laws first.manager.wal (begin_tx 1 ∷ [])
unfolding log_len payload
free-begins =
    begin_ok memory memory_laws memory_healthy free [] refl (omega arith) (tt, refl, refl)
      (omega arith)

-- Every list of bytes is accepted as text.
abbrev any_text : List ℕ → Bool
any_text bytes = true

-- The transaction after it has created a table.
abbrev with_one : Transaction File
with_one = (create_table (b'u' ∷ []) [] first).1

with_one-Alive : Alive memory any_text with_one
with_one-Alive = with_table (b'u' ∷ []) [] (at_begin free first free-begins.0)

begin-one_writer_example :
    (begin memory with_one.manager ≡ (err retryable, with_one.manager))
    × ((commit memory with_one).1.active_writer ≡ false)
    × ((rollback memory with_one).1.active_writer ≡ false)
    × ((dropped with_one).active_writer ≡ false)
begin-one_writer_example = begin-one_writer memory any_text with_one with_one-Alive

-- A table without a name.
abbrev nameless : Call
nameless = create_table_call [] []

create_table-nameless : (create_table [] [] first).0 ≡ err user
unfolding create_table ensure_active validate_name create_table_metadata
create_table-nameless = refl

nameless-failed : (call memory nameless free).0 ≡ err user
unfolding create_table_autocommit autocommit
nameless-failed = rw (free-begins.0, create_table-nameless) refl

autocommit-failed_example :
    ((call memory nameless free).1.active_writer ≡ false)
    × ((call memory nameless free).1.store.catalog ≡ empty)
    × (((call memory nameless free).1.store.page_file ≡ [])
        ⊎ ((t : Transaction File) × ((begin memory free).0 ≡ ok t)
            × IsLogged memory (create_table [] []) t))
autocommit-failed_example = autocommit-failed memory nameless free user nameless-failed
