-- ===== src/Wal/Runs.antt =====
-- The theorems of the log at a file in memory, and small runs.
use rdbms.Prelude.{
  ℕ, ◌<◌, ◌≡◌, ◌≢◌, refl, arith, List, [], ◌∷◌, ◌++◌, take, length, replicate, length-replicate,
  All,
}
use mathlib.Core.List.{map}
use rdbms.Core.{panicked, ok, err, corruption, ◌>>=◌}
use rdbms.Vfs.Memory.{memory, memory_laws, memory_healthy}
use rdbms.Page.Format.{page_size}
use rdbms.Wal.Format.{
  WalRecordKind, begin_tx, page_image, commit_tx, abort_tx, checkpoint, payload, encode_record,
  decode_record, record_bytes,
}
use rdbms.Wal.Codec.{IsKind, decode-encode_record}
use rdbms.Wal.Log.Writer.{WalWriter, open_writer}
use rdbms.Wal.Log.Reader.{read_all}
use rdbms.Wal.Log.Layout.{record_at, stamped, log_bytes, log_len}
use rdbms.Wal.Log.Append.{append_all, read_all-append_all}
use rdbms.Wal.Log.Torn.{read_all-torn}
use rdbms.Wal.Log.Total.{read_all_total}

abbrev image : List ℕ
image = replicate page_size 7

image-length : length image ≡ page_size
image-length = length-replicate page_size 7

abbrev sample : List WalRecordKind
sample = begin_tx 10 ∷ page_image 10 3 image ∷ commit_tx 10 ∷ checkpoint ∷ []

sample-IsKind : All IsKind sample
sample-IsKind = (omega arith, ((omega arith, omega arith, image-length), (omega arith, (tt, tt))))

sample-small : log_len sample < 5000
unfolding log_len payload
sample-small = omega (arith, image-length)

decode-encode_record_example :
    (encode_record (record_at 40 (page_image 10 3 image)) >>= decode_record)
    ≡ ok (record_at 40 (page_image 10 3 image))
decode-encode_record_example =
    decode-encode_record (record_at 40 (page_image 10 3 image))
      (omega arith, (omega arith, omega arith, image-length))

read_all-append_all_example :
    (w : WalWriter (List ℕ)) × (open_writer memory [] ≡ ok w)
    × ((append_all memory sample w).0 ≡ ok (map (λ r. r.lsn) (stamped 0 sample)))
    × (read_all memory (append_all memory sample w).1.file ≡ ok (stamped 0 sample))
read_all-append_all_example =
    read_all-append_all memory memory_laws memory_healthy [] sample refl sample-IsKind
      (omega (arith, sample-small))

-- The log of the sample and half a header.
torn : List ℕ
torn =
    log_bytes (stamped 0 sample)
    ++ take 20 (record_bytes (record_at (log_len sample) (abort_tx 11)))

read_all-torn_example : read_all memory torn ≡ err corruption
unfolding torn
read_all-torn_example =
    read_all-torn memory memory_laws memory_healthy torn sample (abort_tx 11) 20 sample-IsKind
      (omega arith) (omega arith) (omega arith) (omega (arith, sample-small)) refl

read_all_total_example : read_all memory torn ≢ panicked
read_all_total_example = read_all_total memory memory_laws memory_healthy torn
