-- ===== src/Wal/Format.antt =====
-- crates/rdbms_wal/src/lib.rs: log records and the binary envelope.
use rdbms.Prelude.{
  ℕ, ◌+◌, ◌-◌, ◌%◌, ◌^◌, not, ◌&&◌, List, [], ◌∷◌, length, replicate, drop, ltb, leb, ◌==◌,
  if◌then◌else◌,
}
use rdbms.Core.{
  PageId, TxId, Lsn, DbResult, ok, err, user, corruption, reject, checked_add, ◌>>=◌, ◌>>◌,
}
use rdbms.Bytes.{splice, read_le, write_le}
use rdbms.Page.Format.{page_size, Page, header, validate}

abbrev pub wal_magic : ℕ
wal_magic = 0x5244_4257

abbrev pub wal_version : ℕ
wal_version = 1

abbrev pub wal_header_size : ℕ
wal_header_size = 40

abbrev pub off_magic : ℕ
off_magic = 0

abbrev pub off_version : ℕ
off_version = 4

abbrev pub off_kind : ℕ
off_kind = 6

abbrev pub off_lsn : ℕ
off_lsn = 8

abbrev pub off_tx_id : ℕ
off_tx_id = 16

abbrev pub off_page_id : ℕ
off_page_id = 24

abbrev pub off_payload_len : ℕ
off_payload_len = 32

abbrev pub off_checksum : ℕ
off_checksum = 36

abbrev pub kind_begin_tx : ℕ
kind_begin_tx = 1

abbrev pub kind_page_image : ℕ
kind_page_image = 2

abbrev pub kind_commit_tx : ℕ
kind_commit_tx = 3

abbrev pub kind_abort_tx : ℕ
kind_abort_tx = 4

abbrev pub kind_checkpoint : ℕ
kind_checkpoint = 5

abbrev pub absent_id : ℕ
absent_id = 2 ^ 64 - 1

pub data WalRecordKind : Type 0 where
  begin_tx : TxId → WalRecordKind
  page_image : TxId → PageId → List ℕ → WalRecordKind
  commit_tx : TxId → WalRecordKind
  abort_tx : TxId → WalRecordKind
  checkpoint : WalRecordKind

pub record WalRecord : Type 0 where
  pub lsn : Lsn
  pub kind : WalRecordKind

-- `WalRecordKind::page_image`: the record of a validated page.
unfoldable pub image_of_page : TxId → Page → DbResult WalRecordKind
image_of_page tx_id page = do
  validate page
  h ← header page
  ok (page_image tx_id h.page_id page.bytes)

-- The kind's number, and the ids of the envelope.
unfoldable pub metadata : WalRecordKind → ℕ × ℕ × ℕ
metadata (begin_tx tx_id) = (kind_begin_tx, tx_id, absent_id)
metadata (page_image tx_id page_id image) = (kind_page_image, tx_id, page_id)
metadata (commit_tx tx_id) = (kind_commit_tx, tx_id, absent_id)
metadata (abort_tx tx_id) = (kind_abort_tx, tx_id, absent_id)
metadata checkpoint = (kind_checkpoint, absent_id, absent_id)

unfoldable pub payload : WalRecordKind → List ℕ
payload (page_image tx_id page_id image) = image
payload (begin_tx tx_id) = []
payload (commit_tx tx_id) = []
payload (abort_tx tx_id) = []
payload checkpoint = []

unfoldable pub encoded_len_for_kind : WalRecordKind → DbResult ℕ
encoded_len_for_kind kind = checked_add wal_header_size (length (payload kind)) user

-- The loop over the bytes and their index; the four bytes of the stored checksum are left out.
unfoldable pub wal_checksum_from : ℕ → ℕ → List ℕ → ℕ
wal_checksum_from index sum [] = sum
wal_checksum_from index sum (byte ∷ bytes) =
    wal_checksum_from (index + 1)
      (if leb off_checksum index && ltb index (off_checksum + 4)
        then sum
        else (sum + byte) % 2 ^ 32)
      bytes

unfoldable pub wal_checksum : List ℕ → ℕ
wal_checksum bytes = wal_checksum_from 0 0 bytes

-- The envelope before its checksum is written.
unfoldable pub envelope : WalRecord → List ℕ
envelope r =
    let body = payload r.kind in
    let ids = metadata r.kind in
    let b1 = write_le 4 (replicate (wal_header_size + length body) 0) off_magic wal_magic in
    let b2 = write_le 2 b1 off_version wal_version in
    let b3 = write_le 2 b2 off_kind ids.0 in
    let b4 = write_le 8 b3 off_lsn r.lsn in
    let b5 = write_le 8 b4 off_tx_id ids.1 in
    let b6 = write_le 8 b5 off_page_id ids.2 in
    let b7 = write_le 4 b6 off_payload_len (length body) in
    let b8 = write_le 4 b7 off_checksum 0 in splice b8 wal_header_size body

unfoldable pub record_bytes : WalRecord → List ℕ
record_bytes r = write_le 4 (envelope r) off_checksum (wal_checksum (envelope r))

unfoldable pub encode_record : WalRecord → DbResult (List ℕ)
encode_record r = do reject (leb (2 ^ 32) (length (payload r.kind))) user; ok (record_bytes r)

unfoldable pub require_empty_payload : List ℕ → DbResult (Unit {0})
require_empty_payload [] = ok tt
require_empty_payload (byte ∷ bytes) = err corruption

-- The match on the kind's number.
unfoldable pub decode_kind : ℕ → TxId → PageId → List ℕ → DbResult WalRecordKind
decode_kind kind tx_id page_id body =
    if kind == kind_begin_tx
    then (do require_empty_payload body; ok (begin_tx tx_id))
    else if kind == kind_page_image
    then (do reject (not (length body == page_size)) corruption; ok (page_image tx_id page_id body))
    else if kind == kind_commit_tx
    then (do require_empty_payload body; ok (commit_tx tx_id))
    else if kind == kind_abort_tx
    then (do require_empty_payload body; ok (abort_tx tx_id))
    else if kind == kind_checkpoint
    then (do require_empty_payload body; ok checkpoint)
    else err corruption

unfoldable pub decode_record : List ℕ → DbResult WalRecord
decode_record bytes = do
  reject (ltb (length bytes) wal_header_size) corruption
  reject (not (read_le 4 bytes off_magic == wal_magic)) corruption
  reject (not (read_le 2 bytes off_version == wal_version)) corruption
  expected_len ← checked_add wal_header_size (read_le 4 bytes off_payload_len) corruption
  reject (not (length bytes == expected_len)) corruption
  reject (not (read_le 4 bytes off_checksum == wal_checksum bytes)) corruption
  kind ←
      decode_kind (read_le 2 bytes off_kind) (read_le 8 bytes off_tx_id)
        (read_le 8 bytes off_page_id) (drop wal_header_size bytes)
  ok (record { lsn = read_le 8 bytes off_lsn; kind = kind })
