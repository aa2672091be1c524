-- ===== src/Wal/Log/Layout.antt =====
-- The bytes of a log: its records, each stamped with the offset at which it stands.
use rdbms.Prelude.{
  ℕ, ◌+◌, ◌^◌, ◌≤◌, ◌<◌, ◌≡◌, refl, ap, sym, ◌∙◌, arith, List, [], ◌∷◌, ◌++◌, length, length-append,
  All,
}
use mathlib.Core.List.{append_assoc}
use rdbms.Core.{Lsn}
use rdbms.Wal.Format.{wal_header_size, WalRecordKind, WalRecord, payload, record_bytes}
use rdbms.Wal.Codec.{IsKind, IsRecord, length-record_bytes}

abbrev pub record_len : WalRecordKind → ℕ
record_len kind = wal_header_size + length (payload kind)

abbrev pub record_at : Lsn → WalRecordKind → WalRecord
record_at lsn kind = record { lsn = lsn; kind = kind }

-- The records that a log holds from an offset on, for the kinds that were appended.
unfoldable pub stamped : ℕ → List WalRecordKind → List WalRecord
stamped off [] = []
stamped off (k ∷ ks) = record_at off k ∷ stamped (off + record_len k) ks

unfoldable pub log_bytes : List WalRecord → List ℕ
log_bytes [] = []
log_bytes (r ∷ rs) = record_bytes r ++ log_bytes rs

-- The bytes that the kinds take.
unfoldable pub log_len : List WalRecordKind → ℕ
log_len [] = 0
log_len (k ∷ ks) = record_len k + log_len ks

pub length-log_bytes :
    (ks : List WalRecordKind) (off : ℕ) → length (log_bytes (stamped off ks)) ≡ log_len ks
unfolding stamped log_bytes log_len
length-log_bytes [] off = refl
length-log_bytes (k ∷ ks) off = omega (
  arith,
  length-append (record_bytes (record_at off k)) (log_bytes (stamped (off + record_len k) ks)),
  length-record_bytes (record_at off k),
  length-log_bytes ks (off + record_len k),
)

-- Every record takes a header at least.
pub length-le-log_len : (ks : List WalRecordKind) → length ks ≤ log_len ks
unfolding log_len
length-le-log_len [] = omega arith
length-le-log_len (k ∷ ks) = omega (arith, length-le-log_len ks)

pub log_len-append : (ks ms : List WalRecordKind) → log_len (ks ++ ms) ≡ log_len ks + log_len ms
unfolding log_len
log_len-append [] ms = omega arith
log_len-append (k ∷ ks) ms = omega (arith, log_len-append ks ms)

pub stamped-append :
    (ks ms : List WalRecordKind) (off : ℕ)
    → stamped off (ks ++ ms) ≡ stamped off ks ++ stamped (off + log_len ks) ms
unfolding stamped log_len
stamped-append [] ms off = let e : off + 0 ≡ off = omega arith in rw e
stamped-append (k ∷ ks) ms off =
    let e : off + (record_len k + log_len ks) ≡ off + record_len k + log_len ks = omega arith in
    rw e (ap (λ l. record_at off k ∷ l) (stamped-append ks ms (off + record_len k)))

pub log_bytes-append :
    (rs qs : List WalRecord) → log_bytes (rs ++ qs) ≡ log_bytes rs ++ log_bytes qs
unfolding log_bytes
log_bytes-append [] qs = refl
log_bytes-append (r ∷ rs) qs =
    ap (λ l. record_bytes r ++ l) (log_bytes-append rs qs)
    ∙ sym (append_assoc (record_bytes r) (log_bytes rs) (log_bytes qs))

-- The records of a log have 64-bit LSNs.
pub stamped-IsRecord :
    (ks : List WalRecordKind) (off : ℕ)
    → All IsKind ks
    → off + log_len ks < 2 ^ 64
    → All IsRecord (stamped off ks)
unfolding stamped log_len
stamped-IsRecord [] off h room = tt
stamped-IsRecord (k ∷ ks) off h room =
    ((omega (arith, room), h.0), stamped-IsRecord ks (off + record_len k) h.1 (omega (arith, room)))
