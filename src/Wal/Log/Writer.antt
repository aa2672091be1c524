-- ===== src/Wal/Log/Writer.antt =====
-- `LsnAllocator` and `WalWriter` of crates/rdbms_wal/src/lib.rs.
use rdbms.Prelude.{ℕ}
use rdbms.Core.{Lsn, DbResult, ok, err, panicked, user, checked_add}
use rdbms.Exec.{Exec, lift, gets, modify, pure, ◌>>=◌, ◌>>◌}
use rdbms.Vfs.File.{VfsFile}
use rdbms.Wal.Format.{WalRecordKind, encoded_len_for_kind, encode_record}

pub record LsnAllocator : Type 0 where
  pub next : Lsn

unfoldable pub allocate : ℕ → Exec LsnAllocator Lsn
allocate encoded_len = do
  lsn ← gets (λ a. ok a.next)
  next ← lift (checked_add lsn encoded_len user)
  modify (λ a. record { next = next })
  pure lsn

pub record WalWriter (F : Type 0) : Type 0 where
  pub file : F
  pub allocator : LsnAllocator

module _ {F A : Type 0} where
  -- A method of the allocator, called by one of the writer; and so for the file.
  abbrev pub on_allocator : Exec LsnAllocator A → Exec (WalWriter F) A
  on_allocator m w = ((m w.allocator).0, record w { allocator = (m w.allocator).1 })

  abbrev pub on_file : Exec F A → Exec (WalWriter F) A
  on_file m w = ((m w.file).0, record w { file = (m w.file).1 })

module _ (vfs : VfsFile) where
  open vfs use {File, write_all_at, len, sync_data}

  -- `WalWriter::new`: the next record goes to the end of the file.
  unfoldable pub open_writer : File → DbResult (WalWriter File)
  open_writer file = elim (len file) [
    | ok size ↦ ok (record { file = file; allocator = record { next = size } })
    | err e ↦ err e
    | panicked ↦ panicked
  ]

  unfoldable pub append : WalRecordKind → Exec (WalWriter File) Lsn
  append kind = do
    encoded_len ← lift (encoded_len_for_kind kind)
    lsn ← on_allocator (allocate encoded_len)
    bytes ← lift (encode_record (record { lsn = lsn; kind = kind }))
    on_file (write_all_at lsn bytes)
    pure lsn

  unfoldable pub sync_wal : Exec (WalWriter File) (Unit {0})
  sync_wal = on_file sync_data
