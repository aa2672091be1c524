-- ===== src/Wal/Log/Reader.antt =====
-- `WalReader::read_all` of crates/rdbms_wal/src/lib.rs.
use rdbms.Prelude.{ℕ, zero, suc, ◌+◌, ◌-◌, not, List, [], ◌∷◌, ◌++◌, ltb, ◌==◌, if◌then◌else◌}
use rdbms.Core.{DbResult, ok, panicked, corruption, reject, checked_add, ◌>>=◌, ◌>>◌}
use rdbms.Bytes.{read_le}
use rdbms.Vfs.File.{VfsFile}
use rdbms.Wal.Format.{wal_header_size, off_payload_len, WalRecord, decode_record}

module _ (vfs : VfsFile) where
  open vfs use {File, read_exact_at, len}

  -- One round: the record at an offset, and the offset after it.
  unfoldable pub read_one : File → ℕ → ℕ → DbResult (WalRecord × ℕ)
  read_one file size offset = do
    let remaining = size - offset
    reject (ltb remaining wal_header_size) corruption
    head ← read_exact_at offset wal_header_size file
    let payload_len = read_le 4 head off_payload_len
    record_len ← checked_add wal_header_size payload_len corruption
    reject (ltb remaining record_len) corruption
    body ←
        if ltb 0 payload_len
        then read_exact_at (offset + wal_header_size) payload_len file
        else ok []
    entry ← decode_record (head ++ body)
    reject (not (entry.lsn == offset)) corruption
    next ← checked_add offset record_len corruption
    ok (entry, next)

  -- The loop. A round moves the offset on by a header at least, so a fuel of the file's length is
  -- enough; the panic of an empty fuel is never met.
  unfoldable pub read_records : ℕ → File → ℕ → ℕ → List WalRecord → DbResult (List WalRecord)
  read_records zero file size offset records = if ltb offset size then panicked else ok records
  read_records (suc fuel) file size offset records =
      if not (ltb offset size) then ok records else do
        (entry, next) ← read_one file size offset
        read_records fuel file size next (records ++ (entry ∷ []))

  unfoldable pub read_all : File → DbResult (List WalRecord)
  read_all file = do size ← len file; read_records size file size 0 []
