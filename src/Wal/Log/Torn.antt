-- ===== src/Wal/Log/Torn.antt =====
-- What `read_all` makes of a log whose last record was cut short.
use rdbms.Prelude.{
  ℕ, suc, ◌+◌, ◌-◌, ◌≤◌, ◌<◌, ◌≡◌, refl, ap, sym, ◌∙◌, arith, true, ltb, List, [], ◌++◌, length,
  length-append, take, drop, length-take, take-append-drop, All, inl, inr, Bool-cases,
}
use rdbms.Core.{DbError, ok, err, corruption}
use rdbms.Bytes.{slice}
use rdbms.Bytes.Slices.{slice-append_left, slice-append_more}
use rdbms.Vfs.File.{VfsFile, FileLaws, NeverFails, max_offset}
use rdbms.Wal.Format.{wal_header_size, WalRecordKind, WalRecord, record_bytes}
use rdbms.Wal.Codec.{IsKind, IsRecord, length-record_bytes}
use rdbms.Wal.Log.Reader.{read_one, read_records, read_all}
use rdbms.Wal.Log.Layout.{
  record_len, record_at, stamped, log_bytes, log_len, length-log_bytes, length-le-log_len,
}
use rdbms.Wal.Log.Read.{payload_len_of, read_records-log}

-- A slice below a cut is a slice of the whole.
slice-take :
    (bs : List ℕ) (m s n : ℕ) → m ≤ length bs → s + n ≤ m → slice (take m bs) s n ≡ slice bs s n
slice-take bs m s n fits h =
    sym (slice-append_left (take m bs) (drop m bs) s n (omega (arith, length-take m bs fits)))
    ∙ ap (λ l. slice l s n) (take-append-drop m bs)

module _ (vfs : VfsFile) (laws : FileLaws vfs) (healthy : NeverFails vfs laws) where
  open vfs use {File, read_exact_at}
  open laws use {content}

  -- A record of which the file holds the first m bytes only.
  module _ (f : File) (front : List ℕ) (r : WalRecord) (m : ℕ) (h : IsRecord r)
      (c : content f ≡ front ++ take m (record_bytes r)) (cut : m < record_len r.kind) where
    size : length (content f) ≡ length front + m
    size =
        ap length c
        ∙ length-append front (take m (record_bytes r))
        ∙ ap (λ n. length front + n)
            (length-take m (record_bytes r) (omega (arith, length-record_bytes r)))

    torn_head :
        wal_header_size ≤ m
        → read_exact_at (length front) wal_header_size f
          ≡ ok (slice (record_bytes r) 0 wal_header_size)
    torn_head long =
        let z : length front ≡ length front + 0 = omega arith in
        healthy.reads (length front) wal_header_size f (omega (arith, size))
        ∙ ap ok (
            ap (λ l. slice l (length front) wal_header_size) c
            ∙ ap (λ n. slice (front ++ take m (record_bytes r)) n wal_header_size) z
            ∙ slice-append_more front (take m (record_bytes r)) 0 wal_header_size
            ∙ slice-take (record_bytes r) m 0 wal_header_size (omega (arith, length-record_bytes r))
                long)

    read_one_torn :
        length (content f) < max_offset
        → read_one vfs f (length (content f)) (length front) ≡ err corruption
    unfolding read_one
    read_one_torn small = elim (Bool-cases (ltb m wal_header_size)) [
      | inl short ↦ ground (arith, size)
      | inr long ↦
          rw (torn_head (ground (arith, long)), payload_len_of r h)
            (ground (arith, size, long, small))
    ]

  -- An error of a round is the error of the loop.
  read_records_err :
      (n : ℕ) (f : File) (size off : ℕ) (acc : List WalRecord) (e : DbError)
      → off < size
      → read_one vfs f size off ≡ err e
      → read_records vfs (suc n) f size off acc ≡ err e
  unfolding read_records
  read_records_err n f size off acc e h one =
      let inside : ltb off size ≡ true = ground arith in rw (inside, one) refl

  -- On a disk that does not fail, a log of records of 64-bit ids that ends in a proper, non-empty part
  -- of one more record is refused as corrupt.
  pub read_all-torn :
      (f : File) (ks : List WalRecordKind) (k : WalRecordKind) (m : ℕ)
      → All IsKind ks
      → IsKind k
      → 0 < m
      → m < record_len k
      → log_len ks + m < max_offset
      → content f ≡ log_bytes (stamped 0 ks) ++ take m (record_bytes (record_at (log_len ks) k))
      → read_all vfs f ≡ err corruption
  unfolding read_all
  read_all-torn f ks k m hs h lo cut room c =
      let front = log_bytes (stamped 0 ks) in
      let rec = record_at (log_len ks) k in
      let at : length front ≡ log_len ks = length-log_bytes ks 0 in
      let is_record : IsRecord rec = (omega (arith, room), h) in
      let total : length (content f) ≡ log_len ks + m =
        size f front rec m is_record c cut ∙ ap (λ n. n + m) at in
      let rounds : length (content f) ≡ length ks + suc (log_len ks + m - length ks - 1) =
        omega (arith, total, length-le-log_len ks) in
      let start : 0 + log_len ks ≡ length front = omega (arith, at) in
      let last : read_one vfs f (length (content f)) (0 + log_len ks) ≡ err corruption =
        rw start (read_one_torn f front rec m is_record c cut (omega (arith, total))) in
      rw (healthy.lens f) (
        ap (λ n. read_records vfs n f (length (content f)) 0 []) rounds
        ∙ read_records-log vfs laws healthy f ks [] (take m (record_bytes rec)) 0
            (suc (log_len ks + m - length ks - 1)) [] hs refl c (omega (arith, total))
        ∙ read_records_err (log_len ks + m - length ks - 1) f (length (content f)) (0 + log_len ks)
            ([] ++ stamped 0 ks) corruption (omega (arith, total)) last)
