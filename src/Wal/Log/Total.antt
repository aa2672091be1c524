-- ===== src/Wal/Log/Total.antt =====
-- `read_all` comes to an end on every file.
use rdbms.Prelude.{
  ltb→lt, ℕ, zero, suc, ◌+◌, ◌-◌, ◌≤◌, ◌<◌, ◌≡◌, ◌≢◌, refl, ap, sym, ◌∙◌, arith, false, not, ltb,
  ◌==◌, if◌then◌else◌, List, [], ◌∷◌, ◌++◌, length, drop, inl, inr, Bool-cases,
}
use rdbms.Core.{
  TxId, PageId, DbResult, ok, err, panicked, ◌>>=◌, corruption, Ends, Ends-bind, Ends-reject,
  Ends-checked_add, Ends-ok,
}
use rdbms.Bytes.{read_le}
use rdbms.Vfs.File.{VfsFile, FileLaws, NeverFails}
use rdbms.Wal.Format.{
  wal_header_size, off_kind, off_tx_id, off_page_id, off_payload_len, WalRecord,
  require_empty_payload, decode_kind, decode_record,
}
use rdbms.Wal.Log.Reader.{read_one, read_records, read_all}

require_empty_payload_total : (body : List ℕ) → require_empty_payload body ≢ panicked
unfolding require_empty_payload
require_empty_payload_total [] h = cc
require_empty_payload_total (b ∷ body) h = cc

decode_kind_total :
    (kind : ℕ) (tx_id : TxId) (page_id : PageId) (body : List ℕ)
    → decode_kind kind tx_id page_id body ≢ panicked
unfolding decode_kind
decode_kind_total kind tx_id page_id body h = ground (arith, require_empty_payload_total body)

decode_record_total : (bytes : List ℕ) → decode_record bytes ≢ panicked
unfolding decode_record
decode_record_total bytes h = ground (
  arith,
  decode_kind_total (read_le 2 bytes off_kind) (read_le 8 bytes off_tx_id)
      (read_le 8 bytes off_page_id) (drop wal_header_size bytes),
)

abbrev IsFarther : ℕ → WalRecord × ℕ → Type 0
IsFarther off out = off + wal_header_size ≤ out.1

Ends-total {ℓ} : {A : Type ℓ} (r : DbResult A) → r ≢ panicked → Ends (λ _. Unit {0}) r
unfolding Ends
Ends-total (ok x) h = tt
Ends-total (err e) h = tt
Ends-total panicked h = h refl

module _ (vfs : VfsFile) (laws : FileLaws vfs) (healthy : NeverFails vfs laws) where
  open vfs use {File, read_exact_at}
  open laws use {content}

  read_total :
      (o n : ℕ) (f : File) → o + n ≤ length (content f) → Ends (λ _. Unit {0}) (read_exact_at o n f)
  read_total o n f h = rw (healthy.reads o n f h) (Ends-ok _ _ tt)

  read_payload_total :
      (o n : ℕ) (f : File)
      → o + n ≤ length (content f)
      → Ends (λ _. Unit {0}) (if ltb 0 n then read_exact_at o n f else ok [])
  read_payload_total o n f h = elim (Bool-cases (ltb 0 n)) [
    | inl y ↦ rw y (read_total o n f h)
    | inr y ↦ rw y (Ends-ok _ [] tt)
  ]

  -- A round refuses, or moves the offset on by a header at least.
  read_one_moves :
      (f : File) (off : ℕ)
      → off < length (content f)
      → Ends (IsFarther off) (read_one vfs f (length (content f)) off)
  unfolding read_one
  read_one_moves f off h =
      Ends-bind _ _ _ _ (Ends-reject (ltb (length (content f) - off) wal_header_size) corruption)
        (λ _ y1.
          Ends-bind _ _ _ _ (read_total off wal_header_size f (ground (arith, y1))) (λ head _.
            Ends-bind _ _ _ _
              (Ends-checked_add wal_header_size (read_le 4 head off_payload_len) corruption)
              (λ n e.
                Ends-bind _ _ _ _ (Ends-reject (ltb (length (content f) - off) n) corruption)
                  (λ _ y2.
                    Ends-bind _ _ _ _
                      (read_payload_total (off + wal_header_size) (read_le 4 head off_payload_len) f
                        (ground (arith, e, y2)))
                      (λ body _.
                        Ends-bind _ _ _ _
                          (Ends-total (decode_record (head ++ body))
                            (decode_record_total (head ++ body)))
                          (λ entry _.
                            Ends-bind _ _ _ _ (Ends-reject (not (entry.lsn == off)) corruption)
                              (λ _ _.
                                Ends-bind _ _ _ _ (Ends-checked_add off n corruption)
                                  (λ next e2. Ends-ok _ (entry, next) (omega (arith, e, e2))))))))))

  -- A fuel of the bytes that are left is enough.
  read_records_total :
      (fuel : ℕ) (f : File) (off : ℕ) (acc : List WalRecord)
      → length (content f) ≤ off + fuel
      → Ends (λ _. Unit {0}) (read_records vfs fuel f (length (content f)) off acc)
  unfolding read_records
  read_records_total zero f off acc h =
      let past : ltb off (length (content f)) ≡ false = ground arith in rw past (Ends-ok _ acc tt)
  read_records_total (suc fuel) f off acc h = elim (Bool-cases (ltb off (length (content f)))) [
    | inl y ↦ rw y (
        Ends-bind _ _ _ _ (read_one_moves f off (ltb→lt _ _ y))
          (λ out more. read_records_total fuel f out.1 (acc ++ (out.0 ∷ [])) (omega (arith, more))))
    | inr y ↦ rw y (Ends-ok _ acc tt)
  ]

  -- On a disk that does not fail, reading any file as a log ends in the records or in an error: never
  -- in a panic, and never for want of fuel.
  pub read_all_total : (f : File) → read_all vfs f ≢ panicked
  unfolding read_all Ends
  read_all_total f h =
      let total = read_records_total (length (content f)) f 0 [] (omega arith) in
      let same = ap (λ r. r >>= λ size. read_records vfs size f size 0 []) (healthy.lens f) in
      rw (sym same ∙ h) at total
