-- ===== src/Recovery/Runs.antt =====
-- The theorems of the recovery pass at a log in memory.
use rdbms.Prelude.{ℕ, ◌≤◌, ◌<◌, ◌≡◌, refl, arith, List, [], ◌∷◌, length, All}
use rdbms.Core.{PageId, ok}
use rdbms.Page.Format.{page_size, heap}
use rdbms.Page.Ops.{new}
use rdbms.Page.Shape.{header_of, header_ok, validate_ok}
use rdbms.Page.New.{new-IsWellFormed}
use rdbms.Vfs.Memory.{memory, memory_laws, memory_healthy}
use rdbms.Vfs.Read.{read_page}
use rdbms.Wal.Format.{WalRecordKind, begin_tx, page_image, commit_tx, WalRecord, payload}
use rdbms.Wal.Codec.{IsKind, IsRecord}
use rdbms.Wal.Log.Reader.{read_all}
use rdbms.Wal.Log.Layout.{stamped, log_bytes, log_len, stamped-IsRecord}
use rdbms.Wal.Log.Read.{read_all-log_bytes}
use rdbms.Recovery.{RecoveryReport, recover_page_file}
use rdbms.Recovery.Replay.{last_image, image_at, IsReplayed}
use rdbms.Wal.Winner.{is_winner, any_kind}
use rdbms.Recovery.Durable.{recover_page_file-append_all}
use rdbms.Wal.Log.Writer.{WalWriter, open_writer}
use rdbms.Wal.Log.Append.{append_all}
use rdbms.Recovery.Pass.{recover_page_file-latest, recover_page_file-twice}
use rdbms.Recovery.Total.{IsImage, count_redone, recover_page_file_ok}

-- The transaction 10 commits its image of the page 1; the transaction 20 does not commit.
sample : List WalRecordKind
sample =
    begin_tx 10
    ∷ page_image 10 1 (new 1 heap).bytes
    ∷ commit_tx 10
    ∷ page_image 20 2 (new 2 heap).bytes
    ∷ []

new_sized : (id : ℕ) → id ≤ 100 → length (new id heap).bytes ≡ page_size
new_sized id h = (new-IsWellFormed id heap (omega arith)).0.page.sized

sample-IsKind : All IsKind sample
unfolding sample
sample-IsKind = (
  omega arith,
  (
    (omega arith, omega arith, new_sized 1 (omega arith)),
    (omega arith, ((omega arith, omega arith, new_sized 2 (omega arith)), tt)),
  ),
)

new-IsImage : (tx_id id : ℕ) → id ≤ 100 → IsImage (page_image tx_id id (new id heap).bytes)
new-IsImage tx_id id h =
    let (well, same, empty, room) = new-IsWellFormed id heap (omega arith) in
    (
      header_of (new id heap) heap,
      validate_ok (new id heap) heap well,
      header_ok (new id heap) well.formatted,
      same,
      omega (arith, well.page.sized),
    )

log : List WalRecord
log = stamped 0 sample

wal_file : List ℕ
wal_file = log_bytes log

sample-IsImage : All IsImage sample
unfolding sample
sample-IsImage = (tt, (new-IsImage 10 1 (omega arith), (tt, (new-IsImage 20 2 (omega arith), tt))))

log-IsImage : All (λ r. IsImage r.kind) log
unfolding log sample stamped
log-IsImage = (tt, (new-IsImage 10 1 (omega arith), (tt, (new-IsImage 20 2 (omega arith), tt))))

sample-small : log_len sample < 10000
unfolding log_len payload sample
sample-small = omega (arith, new_sized 1 (omega arith), new_sized 2 (omega arith))

log-IsRecord : All IsRecord log
unfolding log
log-IsRecord = stamped-IsRecord sample 0 sample-IsKind (omega (arith, sample-small))

log_read : read_all memory wal_file ≡ ok log
unfolding log wal_file
log_read =
    read_all-log_bytes memory memory_laws memory_healthy (log_bytes (stamped 0 sample)) sample
      sample-IsKind refl (omega (arith, sample-small))

abbrev report : RecoveryReport
report = record { scanned_wal_records = length log; redone_page_images = count_redone log log }

recover_page_file_ok_example : (recover_page_file memory wal_file []).0 ≡ ok report
recover_page_file_ok_example =
    recover_page_file_ok memory memory_laws memory_healthy wal_file [] log log_read log-IsImage

again : (recover_page_file memory wal_file (recover_page_file memory wal_file []).1).0 ≡ ok report
again =
    recover_page_file_ok memory memory_laws memory_healthy wal_file
      (recover_page_file memory wal_file []).1 log log_read log-IsImage

recover_page_file-latest_example :
    (report.scanned_wal_records ≡ length log)
    × ((id : PageId)
        → IsReplayed memory (last_image log log id) id [] (recover_page_file memory wal_file []).1)
recover_page_file-latest_example =
    recover_page_file-latest memory memory_laws memory_healthy wal_file [] log report log_read
      log-IsRecord recover_page_file_ok_example

page_1 : read_page memory 1 (recover_page_file memory wal_file []).1 ≡ ok (new 1 heap)
unfolding log sample stamped last_image image_at is_winner any_kind
page_1 = recover_page_file-latest_example.1 1

recover_page_file-twice_example :
    read_page memory 1
      (recover_page_file memory wal_file (recover_page_file memory wal_file []).1).1
    ≡ ok (new 1 heap)
recover_page_file-twice_example =
    recover_page_file-twice memory memory_laws memory_healthy wal_file [] log report report log_read
      log-IsRecord recover_page_file_ok_example again 1 (new 1 heap) page_1

recover_page_file-append_all_example :
    (w : WalWriter (List ℕ)) × (open_writer memory [] ≡ ok w)
    × ((recover_page_file memory (append_all memory sample w).1.file []).0 ≡ ok report)
    × ((id : PageId)
        → IsReplayed memory
            (last_image log log id)
            id
            []
            (recover_page_file memory (append_all memory sample w).1.file []).1)
unfolding log
recover_page_file-append_all_example =
    recover_page_file-append_all memory memory_laws memory_healthy [] [] sample refl sample-IsKind
      sample-IsImage (omega (arith, sample-small))
