-- ===== src/Wal/Codec.antt =====
-- A decoded envelope is the record that was encoded.
use rdbms.Prelude.{
  ℕ, zero, suc, ◌+◌, ◌^◌, ◌≤◌, ◌<◌, ◌≡◌, refl, sym, ◌∙◌, arith, List, [], ◌∷◌, length, replicate,
  length-replicate, drop,
}
use rdbms.Core.{ok, ◌>>=◌}
use rdbms.Bytes.{splice, read_le, write_le}
use rdbms.Bytes.Slices.{length-splice, slice-splice_self, slice-drop}
use rdbms.Bytes.Words.{
  length-to_le_bytes, length-write_le, read-write_self, read-write_apart, read-splice-apart,
  slice-write_apart,
}
use rdbms.Page.Format.{page_size}
use rdbms.Wal.Format.{
  wal_magic, wal_version, wal_header_size, off_magic, off_version, off_kind, off_lsn, off_tx_id,
  off_page_id, off_payload_len, off_checksum, WalRecordKind, begin_tx, page_image, commit_tx,
  abort_tx, checkpoint, WalRecord, metadata, payload, wal_checksum_from, wal_checksum, envelope,
  record_bytes, encode_record, require_empty_payload, decode_kind, decode_record,
}

-- What the types of the source say of a record: 64-bit ids and LSNs, and an image of a page's size.
abbrev pub IsKind : WalRecordKind → Type 0
IsKind (begin_tx tx_id) = tx_id < 2 ^ 64
IsKind (page_image tx_id page_id image) =
    (tx_id < 2 ^ 64) × (page_id < 2 ^ 64) × (length image ≡ page_size)
IsKind (commit_tx tx_id) = tx_id < 2 ^ 64
IsKind (abort_tx tx_id) = tx_id < 2 ^ 64
IsKind checkpoint = Unit

abbrev pub IsRecord : WalRecord → Type 0
IsRecord r = (r.lsn < 2 ^ 64) × IsKind r.kind

pub metadata_bounds :
    (k : WalRecordKind)
    → IsKind k
    → ((metadata k).0 < 2 ^ 16) × ((metadata k).1 < 2 ^ 64) × ((metadata k).2 < 2 ^ 64)
unfolding metadata
metadata_bounds (begin_tx tx_id) h = omega arith
metadata_bounds (page_image tx_id page_id image) h = omega arith
metadata_bounds (commit_tx tx_id) h = omega arith
metadata_bounds (abort_tx tx_id) h = omega arith
metadata_bounds checkpoint h = omega arith

pub payload-le : (k : WalRecordKind) → IsKind k → length (payload k) ≤ page_size
unfolding payload
payload-le (begin_tx tx_id) h = omega arith
payload-le (page_image tx_id page_id image) h = omega arith
payload-le (commit_tx tx_id) h = omega arith
payload-le (abort_tx tx_id) h = omega arith
payload-le checkpoint h = omega arith

-- The match on the number undoes `metadata` and `payload`.
pub decode_kind-metadata :
    (k : WalRecordKind)
    → IsKind k
    → decode_kind (metadata k).0 (metadata k).1 (metadata k).2 (payload k) ≡ ok k
unfolding metadata payload decode_kind require_empty_payload
decode_kind-metadata (begin_tx tx_id) h = refl
decode_kind-metadata (page_image tx_id page_id image) h = ground arith
decode_kind-metadata (commit_tx tx_id) h = refl
decode_kind-metadata (abort_tx tx_id) h = refl
decode_kind-metadata checkpoint h = refl

-- The bytes of the checksum field do not count.
wal_checksum_from-splice :
    (bs d : List ℕ) (index sum at : ℕ)
    → off_checksum ≤ index + at
    → index + at + length d ≤ off_checksum + 4
    → wal_checksum_from index sum (splice bs at d) ≡ wal_checksum_from index sum bs
unfolding wal_checksum_from splice
wal_checksum_from-splice [] d index sum at lo hi = refl
wal_checksum_from-splice (x ∷ xs) [] index sum zero lo hi = refl
wal_checksum_from-splice (x ∷ xs) (y ∷ d) index sum zero lo hi =
    ground (arith, wal_checksum_from-splice xs d (index + 1) sum zero (omega arith) (omega arith))
wal_checksum_from-splice (x ∷ xs) d index sum (suc at) lo hi =
    wal_checksum_from-splice xs d (index + 1) _ at (omega arith) (omega arith)

wal_checksum_from-lt :
    (bs : List ℕ) (index sum : ℕ) → sum < 2 ^ 32 → wal_checksum_from index sum bs < 2 ^ 32
unfolding wal_checksum_from
wal_checksum_from-lt [] index sum h = h
wal_checksum_from-lt (b ∷ bs) index sum h = wal_checksum_from-lt bs (index + 1) _ (ground arith)

pub wal_checksum-lt : (bs : List ℕ) → wal_checksum bs < 2 ^ 32
unfolding wal_checksum
wal_checksum-lt bs = wal_checksum_from-lt bs 0 0 (omega arith)

module _ (r : WalRecord) where
  abbrev body : List ℕ
  body = payload r.kind

  abbrev ids : ℕ × ℕ × ℕ
  ids = metadata r.kind

  abbrev b0 : List ℕ
  b0 = replicate (wal_header_size + length body) 0

  abbrev b1 : List ℕ
  b1 = write_le 4 b0 off_magic wal_magic

  abbrev b2 : List ℕ
  b2 = write_le 2 b1 off_version wal_version

  abbrev b3 : List ℕ
  b3 = write_le 2 b2 off_kind ids.0

  abbrev b4 : List ℕ
  b4 = write_le 8 b3 off_lsn r.lsn

  abbrev b5 : List ℕ
  b5 = write_le 8 b4 off_tx_id ids.1

  abbrev b6 : List ℕ
  b6 = write_le 8 b5 off_page_id ids.2

  abbrev b7 : List ℕ
  b7 = write_le 4 b6 off_payload_len (length body)

  abbrev b8 : List ℕ
  b8 = write_le 4 b7 off_checksum 0

  abbrev b9 : List ℕ
  b9 = splice b8 wal_header_size body

  abbrev sealed : List ℕ
  sealed = write_le 4 b9 off_checksum (wal_checksum b9)

  l0 : length b0 ≡ wal_header_size + length body
  l0 = length-replicate (wal_header_size + length body) 0

  l1 : length b1 ≡ wal_header_size + length body
  l1 = length-write_le 4 b0 off_magic wal_magic ∙ l0

  l2 : length b2 ≡ wal_header_size + length body
  l2 = length-write_le 2 b1 off_version wal_version ∙ l1

  l3 : length b3 ≡ wal_header_size + length body
  l3 = length-write_le 2 b2 off_kind ids.0 ∙ l2

  l4 : length b4 ≡ wal_header_size + length body
  l4 = length-write_le 8 b3 off_lsn r.lsn ∙ l3

  l5 : length b5 ≡ wal_header_size + length body
  l5 = length-write_le 8 b4 off_tx_id ids.1 ∙ l4

  l6 : length b6 ≡ wal_header_size + length body
  l6 = length-write_le 8 b5 off_page_id ids.2 ∙ l5

  l7 : length b7 ≡ wal_header_size + length body
  l7 = length-write_le 4 b6 off_payload_len (length body) ∙ l6

  l8 : length b8 ≡ wal_header_size + length body
  l8 = length-write_le 4 b7 off_checksum 0 ∙ l7

  l9 : length b9 ≡ wal_header_size + length body
  l9 = length-splice b8 wal_header_size body ∙ l8

  length-sealed : length sealed ≡ wal_header_size + length body
  length-sealed = length-write_le 4 b9 off_checksum (wal_checksum b9) ∙ l9

  -- A field below offset 36 reads the same after the later writes.
  tail_8 : (s m : ℕ) → s + m ≤ off_checksum → read_le m sealed s ≡ read_le m b8 s
  tail_8 s m h =
      read-write_apart b9 s m 4 off_checksum (wal_checksum b9) (ground arith)
      ∙ read-splice-apart b8 s m wal_header_size body (ground arith)

  tail_7 : (s m : ℕ) → s + m ≤ off_checksum → read_le m sealed s ≡ read_le m b7 s
  tail_7 s m h = tail_8 s m (omega arith) ∙ read-write_apart b7 s m 4 off_checksum 0 (ground arith)

  tail_6 : (s m : ℕ) → s + m ≤ off_payload_len → read_le m sealed s ≡ read_le m b6 s
  tail_6 s m h =
      tail_7 s m (omega arith)
      ∙ read-write_apart b6 s m 4 off_payload_len (length body) (ground arith)

  tail_5 : (s m : ℕ) → s + m ≤ off_page_id → read_le m sealed s ≡ read_le m b5 s
  tail_5 s m h =
      tail_6 s m (omega arith) ∙ read-write_apart b5 s m 8 off_page_id ids.2 (ground arith)

  tail_4 : (s m : ℕ) → s + m ≤ off_tx_id → read_le m sealed s ≡ read_le m b4 s
  tail_4 s m h = tail_5 s m (omega arith) ∙ read-write_apart b4 s m 8 off_tx_id ids.1 (ground arith)

  tail_3 : (s m : ℕ) → s + m ≤ off_lsn → read_le m sealed s ≡ read_le m b3 s
  tail_3 s m h = tail_4 s m (omega arith) ∙ read-write_apart b3 s m 8 off_lsn r.lsn (ground arith)

  tail_2 : (s m : ℕ) → s + m ≤ off_kind → read_le m sealed s ≡ read_le m b2 s
  tail_2 s m h = tail_3 s m (omega arith) ∙ read-write_apart b2 s m 2 off_kind ids.0 (ground arith)

  tail_1 : (s m : ℕ) → s + m ≤ off_version → read_le m sealed s ≡ read_le m b1 s
  tail_1 s m h =
      tail_2 s m (omega arith) ∙ read-write_apart b1 s m 2 off_version wal_version (ground arith)

  field_magic : read_le 4 sealed off_magic ≡ wal_magic
  field_magic =
      tail_1 off_magic 4 (omega arith)
      ∙ read-write_self 4 b0 off_magic wal_magic (omega (arith, l0)) (omega arith)

  field_version : read_le 2 sealed off_version ≡ wal_version
  field_version =
      tail_2 off_version 2 (omega arith)
      ∙ read-write_self 2 b1 off_version wal_version (omega (arith, l1)) (omega arith)

  field_kind : ids.0 < 2 ^ 16 → read_le 2 sealed off_kind ≡ ids.0
  field_kind h =
      tail_3 off_kind 2 (omega arith) ∙ read-write_self 2 b2 off_kind ids.0 (omega (arith, l2)) h

  field_lsn : r.lsn < 2 ^ 64 → read_le 8 sealed off_lsn ≡ r.lsn
  field_lsn h =
      tail_4 off_lsn 8 (omega arith) ∙ read-write_self 8 b3 off_lsn r.lsn (omega (arith, l3)) h

  field_tx_id : ids.1 < 2 ^ 64 → read_le 8 sealed off_tx_id ≡ ids.1
  field_tx_id h =
      tail_5 off_tx_id 8 (omega arith) ∙ read-write_self 8 b4 off_tx_id ids.1 (omega (arith, l4)) h

  field_page_id : ids.2 < 2 ^ 64 → read_le 8 sealed off_page_id ≡ ids.2
  field_page_id h =
      tail_6 off_page_id 8 (omega arith)
      ∙ read-write_self 8 b5 off_page_id ids.2 (omega (arith, l5)) h

  field_payload_len : length body < 2 ^ 32 → read_le 4 sealed off_payload_len ≡ length body
  field_payload_len h =
      tail_7 off_payload_len 4 (omega arith)
      ∙ read-write_self 4 b6 off_payload_len (length body) (omega (arith, l6)) h

  field_checksum : read_le 4 sealed off_checksum ≡ wal_checksum sealed
  unfolding wal_checksum write_le
  field_checksum =
      read-write_self 4 b9 off_checksum (wal_checksum b9) (omega (arith, l9)) (wal_checksum-lt b9)
      ∙ sym (
          wal_checksum_from-splice b9 _ 0 0 off_checksum (omega arith)
            (omega (arith, length-to_le_bytes 4 (wal_checksum b9))))

  -- The bytes behind the header are the payload.
  drop-sealed : drop wal_header_size sealed ≡ body
  drop-sealed =
      sym (slice-drop sealed wal_header_size (length body) (sym length-sealed))
      ∙ slice-write_apart b9 wal_header_size (length body) 4 off_checksum (wal_checksum b9)
          (ground arith)
      ∙ slice-splice_self b8 wal_header_size body (omega (arith, l8))

  -- A record of a 64-bit LSN and ids encodes, and decoding the bytes gives the same record back.
  sealed-decode : IsRecord r → decode_record sealed ≡ ok r
  unfolding decode_record
  sealed-decode h =
      let (hk, ht, hp) = metadata_bounds r.kind h.1 in
      let small = payload-le r.kind h.1 in
      rw
        (
          field_magic,
          field_version,
          field_payload_len (omega arith),
          length-sealed,
          field_checksum,
          field_kind hk,
          field_tx_id ht,
          field_page_id hp,
          field_lsn h.0,
          drop-sealed,
          decode_kind-metadata r.kind h.1,
        )
        (ground arith)

-- `encode_record` succeeds on every record of 64-bit ids, with the bytes of the envelope.
pub encode_record_ok : (r : WalRecord) → IsRecord r → encode_record r ≡ ok (record_bytes r)
unfolding encode_record
encode_record_ok r h = ground (arith, payload-le r.kind h.1)

pub length-record_bytes :
    (r : WalRecord) → length (record_bytes r) ≡ wal_header_size + length (payload r.kind)
unfolding record_bytes envelope
length-record_bytes r = length-sealed r

-- The length of a record stands in its header.
pub read-record_bytes :
    (r : WalRecord)
    → IsRecord r
    → read_le 4 (record_bytes r) off_payload_len ≡ length (payload r.kind)
unfolding record_bytes envelope
read-record_bytes r h = field_payload_len r (omega (arith, payload-le r.kind h.1))

pub decode-record_bytes : (r : WalRecord) → IsRecord r → decode_record (record_bytes r) ≡ ok r
unfolding record_bytes envelope
decode-record_bytes r h = sealed-decode r h

-- Every record whose ids and LSN are 64-bit numbers, and whose image has the size of a page, can be
-- encoded, and decoding the bytes gives the same record.
pub decode-encode_record : (r : WalRecord) → IsRecord r → (encode_record r >>= decode_record) ≡ ok r
decode-encode_record r h = rw (encode_record_ok r h) (decode-record_bytes r h)
