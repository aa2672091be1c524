-- ===== src/Wal/Log/Read.antt =====
-- What `read_all` makes of the bytes of a log.
use mathlib.Core.List.{append_assoc, append-nil}
use rdbms.Prelude.{
  ℕ, zero, suc, ◌+◌, ◌-◌, ◌^◌, ◌≤◌, ◌<◌, ◌≡◌, refl, ap, sym, ◌∙◌, arith, Bool, true, false, not,
  ltb, leb, ◌==◌, if◌then◌else◌, List, [], ◌∷◌, ◌++◌, length, length-append, All, inl, inr,
  Bool-cases,
}
use rdbms.Core.{ok}
use rdbms.Bytes.{slice, read_le, from_le_bytes}
use rdbms.Bytes.Slices.{slice-append_left, slice-append_more, slice-slice, slice-split, slice_whole}
use rdbms.Vfs.File.{VfsFile, FileLaws, NeverFails, max_offset}
use rdbms.Wal.Format.{
  wal_header_size, off_payload_len, WalRecordKind, WalRecord, payload, record_bytes,
}
use rdbms.Wal.Codec.{IsKind, IsRecord, length-record_bytes, read-record_bytes, decode-record_bytes}
use rdbms.Wal.Log.Reader.{read_one, read_records, read_all}
use rdbms.Wal.Log.Layout.{
  record_len, record_at, stamped, log_bytes, log_len, length-log_bytes, length-le-log_len,
}

-- The header of a record, cut from bytes that begin with it.
head_of :
    (front e rest : List ℕ)
    → wal_header_size ≤ length e
    → slice (front ++ (e ++ rest)) (length front) wal_header_size ≡ slice e 0 wal_header_size
head_of front e rest h =
    let z : length front ≡ length front + 0 = omega arith in
    rw z (slice-append_more front (e ++ rest) 0 wal_header_size)
    ∙ slice-append_left e rest 0 wal_header_size h

pub payload_len_of :
    (r : WalRecord)
    → IsRecord r
    → read_le 4 (slice (record_bytes r) 0 wal_header_size) off_payload_len ≡ length (payload r.kind)
unfolding read_le
payload_len_of r h =
    ap from_le_bytes
      (slice-slice (record_bytes r) 0 wal_header_size off_payload_len 4 (omega arith))
    ∙ unfold read_le in read-record_bytes r h

module _ (vfs : VfsFile) (laws : FileLaws vfs) (healthy : NeverFails vfs laws) where
  open vfs use {File, read_exact_at}
  open laws use {content}

  module _ (f : File) (front rest : List ℕ) (r : WalRecord) (h : IsRecord r)
      (c : content f ≡ front ++ (record_bytes r ++ rest)) (lsn : r.lsn ≡ length front)
      (small : length (content f) < max_offset) where
    sizes :
        (length (content f)
          ≡ length front + (wal_header_size + length (payload r.kind) + length rest))
    sizes = omega (
      arith,
      ap length c,
      length-append front (record_bytes r ++ rest),
      length-append (record_bytes r) rest,
      length-record_bytes r,
    )

    read_head :
        read_exact_at (length front) wal_header_size f
        ≡ ok (slice (record_bytes r) 0 wal_header_size)
    read_head =
        healthy.reads (length front) wal_header_size f (omega (arith, sizes))
        ∙ ap ok (
            ap (λ l. slice l (length front) wal_header_size) c
            ∙ head_of front (record_bytes r) rest (omega (arith, length-record_bytes r)))

    read_body :
        read_exact_at (length front + wal_header_size) (length (payload r.kind)) f
        ≡ ok (slice (record_bytes r) wal_header_size (length (payload r.kind)))
    read_body =
        healthy.reads (length front + wal_header_size) (length (payload r.kind)) f
          (omega (arith, sizes))
        ∙ ap ok (
            ap (λ l. slice l (length front + wal_header_size) (length (payload r.kind))) c
            ∙ slice-append_more front (record_bytes r ++ rest) wal_header_size
                (length (payload r.kind))
            ∙ slice-append_left (record_bytes r) rest wal_header_size (length (payload r.kind))
                (omega (arith, length-record_bytes r)))

    whole :
        slice (record_bytes r) 0 wal_header_size
          ++ slice (record_bytes r) wal_header_size (length (payload r.kind))
        ≡ record_bytes r
    whole =
        slice-split (record_bytes r) 0 wal_header_size (length (payload r.kind))
        ∙ rw (length-record_bytes r) at (slice_whole (record_bytes r))

    -- No payload is not read, and is the empty slice.
    read_payload :
        (if ltb 0 (length (payload r.kind))
          then read_exact_at (length front + wal_header_size) (length (payload r.kind)) f
          else ok [])
        ≡ ok (slice (record_bytes r) wal_header_size (length (payload r.kind)))
    unfolding slice rdbms.Prelude.take
    read_payload = elim (Bool-cases (ltb 0 (length (payload r.kind)))) [
      | inl y ↦ rw y read_body
      | inr y ↦ let z : length (payload r.kind) ≡ 0 = ground (arith, y) in rw (y, z) refl
    ]

    read_one_ok :
        read_one vfs f (length (content f)) (length front)
        ≡ ok (r, length front + record_len r.kind)
    unfolding read_one
    read_one_ok =
        rw (read_head, payload_len_of r h, read_payload, whole, decode-record_bytes r h)
          (ground (arith, sizes, small, lsn))

  -- A round of the loop, at a record.
  read_records-record :
      (f : File) (front rest : List ℕ) (k : WalRecordKind) (off n : ℕ) (acc : List WalRecord)
      → IsKind k
      → off ≡ length front
      → content f ≡ front ++ (record_bytes (record_at off k) ++ rest)
      → length (content f) < max_offset
      → read_records vfs (suc n) f (length (content f)) off acc
        ≡ read_records vfs n f
            (length (content f))
            (off + record_len k)
            (acc ++ (record_at off k ∷ []))
  unfolding read_records
  read_records-record f front rest k off n acc h e c small =
      let r = record_at off k in
      let long : length front + wal_header_size ≤ length (content f) = omega (
        arith,
        ap length c,
        length-append front (record_bytes r ++ rest),
        length-append (record_bytes r) rest,
        length-record_bytes r,
      ) in
      let inside : ltb off (length (content f)) ≡ true = ground (arith, long) in
      let one : read_one vfs f (length (content f)) off ≡ ok (r, off + record_len k) =
        rw e (rw e at (read_one_ok f front rest r (omega (arith, long), h) c e small)) in
      rw (inside, one) refl

  -- As many rounds as there are records read them all.
  pub read_records-log :
      (f : File) (ks : List WalRecordKind) (front tail : List ℕ) (off fuel : ℕ)
      (acc : List WalRecord)
      → All IsKind ks
      → off ≡ length front
      → content f ≡ front ++ (log_bytes (stamped off ks) ++ tail)
      → length (content f) < max_offset
      → read_records vfs (length ks + fuel) f (length (content f)) off acc
        ≡ read_records vfs fuel f (length (content f)) (off + log_len ks) (acc ++ stamped off ks)
  unfolding stamped log_len
  read_records-log f [] front tail off fuel acc h e c small =
      let e1 : off + 0 ≡ off = omega arith in
      let e2 : 0 + fuel ≡ fuel = omega arith in rw (e1, e2, append-nil acc) refl
  read_records-log f (k ∷ ks) front tail off fuel acc h e c small =
      let r = record_at off k in
      let rest = log_bytes (stamped (off + record_len k) ks) in
      let e1 : suc (length ks) + fuel ≡ suc (length ks + fuel) = omega arith in
      let e2 : off + (record_len k + log_len ks) ≡ off + record_len k + log_len ks = omega arith in
      let c1 : content f ≡ front ++ (record_bytes r ++ (rest ++ tail)) =
        c ∙ ap (λ l. front ++ l) (unfold log_bytes in append_assoc (record_bytes r) rest tail) in
      let c2 : content f ≡ (front ++ record_bytes r) ++ (rest ++ tail) =
        c1 ∙ sym (append_assoc front (record_bytes r) (rest ++ tail)) in
      let long : off + record_len k ≡ length (front ++ record_bytes r) =
        omega (arith, e, length-append front (record_bytes r), length-record_bytes r) in
      rw (e1, e2)
        (read_records-record f front (rest ++ tail) k off (length ks + fuel) acc h.0 e c1 small
          ∙ read_records-log f ks (front ++ record_bytes r) tail (off + record_len k) fuel
              (acc ++ (r ∷ [])) h.1 long c2 small
          ∙ ap
              (λ l.
                read_records vfs fuel f (length (content f)) (off + record_len k + log_len ks) l)
              (append_assoc acc (r ∷ []) (stamped (off + record_len k) ks)))

  -- The loop ends at the end of the file.
  read_records_end :
      (fuel : ℕ) (f : File) (size off : ℕ) (acc : List WalRecord)
      → size ≤ off
      → read_records vfs fuel f size off acc ≡ ok acc
  unfolding read_records
  read_records_end zero f size off acc h = ground arith
  read_records_end (suc n) f size off acc h =
      let stop : ltb off size ≡ false = ground arith in rw stop refl

  -- Every record that was appended to a log is read back, in order, with the LSN at which it stands.
  pub read_all-log_bytes :
      (f : File) (ks : List WalRecordKind)
      → All IsKind ks
      → content f ≡ log_bytes (stamped 0 ks)
      → log_len ks < max_offset
      → read_all vfs f ≡ ok (stamped 0 ks)
  unfolding read_all
  read_all-log_bytes f ks h c small =
      let size : length (content f) ≡ log_len ks = ap length c ∙ length-log_bytes ks 0 in
      let rounds : length (content f) ≡ length ks + (log_len ks - length ks) =
        omega (arith, size, length-le-log_len ks) in
      let whole : content f ≡ [] ++ (log_bytes (stamped 0 ks) ++ []) =
        c ∙ sym (append-nil (log_bytes (stamped 0 ks))) in
      rw (healthy.lens f) (
        ap (λ n. read_records vfs n f (length (content f)) 0 []) rounds
        ∙ read_records-log f ks [] [] 0 (log_len ks - length ks) [] h refl whole
            (omega (arith, size))
        ∙ read_records_end (log_len ks - length ks) f (length (content f)) (0 + log_len ks)
            (stamped 0 ks) (omega (arith, size)))
