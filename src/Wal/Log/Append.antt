-- ===== src/Wal/Log/Append.antt =====
-- What `open_writer` and `append` make of a log.
use mathlib.Core.List.{append-nil, append_assoc, map}
use rdbms.Prelude.{
  ℕ, ◌+◌, ◌^◌, ◌<◌, ◌≡◌, refl, ap, sym, ◌∙◌, arith, List, [], ◌∷◌, ◌++◌, length, All, All-append,
  true, ltb,
}
use rdbms.Core.{Lsn, ok}
use rdbms.Exec.{Exec, pure, ◌>>=◌}
use rdbms.Vfs.File.{VfsFile, FileLaws, NeverFails, max_offset}
use rdbms.Vfs.Overlay.{overlay, overlay_end}
use rdbms.Wal.Format.{
  wal_header_size, WalRecordKind, payload, record_bytes, encode_record, encoded_len_for_kind,
}
use rdbms.Wal.Codec.{IsKind, length-record_bytes, encode_record_ok}
use rdbms.Wal.Log.Writer.{allocate, WalWriter, open_writer, append}
use rdbms.Wal.Log.Reader.{read_all}
use rdbms.Wal.Log.Layout.{
  record_len, record_at, stamped, log_bytes, log_len, length-log_bytes, log_len-append,
  stamped-append, log_bytes-append,
}
use rdbms.Wal.Log.Read.{read_all-log_bytes}

module _ (vfs : VfsFile) where
  -- Appends, one after another, with the LSNs that they return.
  unfoldable pub append_all : List WalRecordKind → Exec (WalWriter vfs.File) (List Lsn)
  append_all [] = pure []
  append_all (k ∷ ks) = do lsn ← append vfs k; lsns ← append_all ks; pure (lsn ∷ lsns)

module _ (vfs : VfsFile) (laws : FileLaws vfs) where
  -- A writer whose file is the log of some kinds, and whose next record goes to its end.
  abbrev pub IsLog : WalWriter vfs.File → List WalRecordKind → Type 0
  IsLog w ks =
      All IsKind ks
      × (laws.content w.file ≡ log_bytes (stamped 0 ks))
      × (w.allocator.next ≡ log_len ks)

  module _ (healthy : NeverFails vfs laws) where
    open_writer_ok :
        (f : vfs.File) (n : ℕ)
        → length (laws.content f) ≡ n
        → open_writer vfs f ≡ ok (record { file = f; allocator = record { next = n } })
    unfolding open_writer
    open_writer_ok f n h = rw (open_writer, healthy.lens f, h) refl

    -- Opening a log gives a writer at its end.
    pub open_writer-IsLog :
        (f : vfs.File) (ks : List WalRecordKind)
        → All IsKind ks
        → laws.content f ≡ log_bytes (stamped 0 ks)
        → (w : WalWriter vfs.File) × (open_writer vfs f ≡ ok w) × (w.file ≡ f) × IsLog w ks
    open_writer-IsLog f ks h c = (
      record { file = f; allocator = record { next = log_len ks } },
      open_writer_ok f (log_len ks) (ap length c ∙ length-log_bytes ks 0),
      refl,
      (h, c, refl),
    )

    -- One more record at the end of a log.
    log_bytes-snoc :
        (ks : List WalRecordKind) (k : WalRecordKind)
        → log_bytes (stamped 0 (ks ++ (k ∷ [])))
          ≡ log_bytes (stamped 0 ks) ++ record_bytes (record_at (log_len ks) k)
    unfolding log_bytes stamped
    log_bytes-snoc ks k =
        let z : 0 + log_len ks ≡ log_len ks = omega arith in
        ap log_bytes (stamped-append ks (k ∷ []) 0)
        ∙ log_bytes-append (stamped 0 ks) (stamped (0 + log_len ks) (k ∷ []))
        ∙ ap (λ l. log_bytes (stamped 0 ks) ++ l)
            (append-nil (record_bytes (record_at (0 + log_len ks) k))
              ∙ ap (λ n. record_bytes (record_at n k)) z)

    log_len-snoc :
        (ks : List WalRecordKind) (k : WalRecordKind)
        → log_len (ks ++ (k ∷ [])) ≡ log_len ks + record_len k
    unfolding log_len
    log_len-snoc ks k = omega (arith, log_len-append ks (k ∷ []))

    module _ (w : WalWriter vfs.File) (ks : List WalRecordKind) (k : WalRecordKind)
        (log : IsLog w ks) (h : IsKind k) (room : log_len ks + record_len k < max_offset) where
      -- The state after an append.
      append_run : append vfs k w ≡ (
        ok (log_len ks),
        record w {
          file = (vfs.write_all_at (log_len ks) (record_bytes (record_at (log_len ks) k)) w.file).1;
          allocator = record { next = log_len ks + record_len k };
        },
      )
      unfolding append allocate encoded_len_for_kind
      append_run =
          let rec = record_at (log_len ks) k in
          let small : wal_header_size + length (payload k) < 2 ^ 63 = omega (arith, room) in
          let written : (vfs.write_all_at (log_len ks) (record_bytes rec) w.file).0 ≡ ok tt =
            healthy.writes (log_len ks) (record_bytes rec) w.file
              (omega (arith, room, length-record_bytes rec)) in
          let encoded : encode_record rec ≡ ok (record_bytes rec) =
            encode_record_ok rec (omega (arith, room), h) in
          let fits1 : ltb (wal_header_size + length (payload k)) (2 ^ 64) ≡ true =
            ground (arith, small) in
          let fits2 : ltb (log_len ks + (wal_header_size + length (payload k))) (2 ^ 64) ≡ true =
            ground (arith, room) in
          rw (fits1, log.2, fits2, encoded, written) refl

      -- The record lands at the end, its LSN is the offset there, and the file is the longer log.
      pub append-IsLog :
          ((append vfs k w).0 ≡ ok (log_len ks)) × IsLog (append vfs k w).1 (ks ++ (k ∷ []))
      append-IsLog =
          let rec = record_at (log_len ks) k in
          let end : length (laws.content w.file) ≡ log_len ks =
            ap length log.1 ∙ length-log_bytes ks 0 in
          let written = laws.write_is_overlay (log_len ks) (record_bytes rec) w.file (
            healthy.writes (log_len ks) (record_bytes rec) w.file
              (omega (arith, room, length-record_bytes rec))) in
          rw append_run (
            refl,
            (
              All-append IsKind ks (k ∷ []) log.0 (h, tt),
              written
                  ∙ ap (λ n. overlay (laws.content w.file) n (record_bytes rec)) (sym end)
                  ∙ overlay_end (laws.content w.file) (record_bytes rec)
                  ∙ ap (λ l. l ++ record_bytes rec) log.1
                  ∙ sym (log_bytes-snoc ks k),
              sym (log_len-snoc ks k),
            ),
          )

  module _ (healthy : NeverFails vfs laws) where
    append_all-IsLog :
        (ms : List WalRecordKind) (w : WalWriter vfs.File) (ks : List WalRecordKind)
        → IsLog w ks
        → All IsKind ms
        → log_len ks + log_len ms < max_offset
        → ((append_all vfs ms w).0 ≡ ok (map (λ r. r.lsn) (stamped (log_len ks) ms)))
          × IsLog (append_all vfs ms w).1 (ks ++ ms)
    unfolding append_all stamped log_len
    append_all-IsLog [] w ks log h room = (refl, rw (append-nil ks) log)
    append_all-IsLog (k ∷ ms) w ks log h room =
        let one = append-IsLog healthy w ks k log h.0 (omega (arith, room)) in
        let rest =
          append_all-IsLog ms (append vfs k w).1 (ks ++ (k ∷ [])) one.1 h.1
            (omega (arith, room, log_len-snoc healthy ks k)) in
        let same = rw (log_len-snoc healthy ks k, append_assoc ks (k ∷ []) ms) at rest in
        rw (one.0, same.0) (refl, same.1)

    -- Kinds of 64-bit ids, appended one after another to a file that holds nothing, while the log
    -- stays below the largest offset: each append succeeds and returns the LSN at which its record
    -- stands, and reading the file gives back the records in order with these LSNs.
    pub read_all-append_all :
        (f : vfs.File) (ks : List WalRecordKind)
        → laws.content f ≡ []
        → All IsKind ks
        → log_len ks < max_offset
        → (w : WalWriter vfs.File) × (open_writer vfs f ≡ ok w)
          × ((append_all vfs ks w).0 ≡ ok (map (λ r. r.lsn) (stamped 0 ks)))
          × (read_all vfs (append_all vfs ks w).1.file ≡ ok (stamped 0 ks))
    unfolding log_len
    read_all-append_all f ks empty h room =
        let (w, opened, same, log) =
          open_writer-IsLog healthy f [] tt (unfold log_bytes stamped in empty) in
        let done = append_all-IsLog ks w [] log h (omega (arith, room)) in
        (
          w,
          opened,
          done.0,
          read_all-log_bytes vfs laws healthy (append_all vfs ks w).1.file ks h done.1.1 room,
        )
