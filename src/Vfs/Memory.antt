-- ===== src/Vfs/Memory.antt =====
-- A file in memory that does not fail, for the tests: it meets the laws of a file.
use rdbms.Prelude.{ℕ, ◌+◌, ◌≤◌, ◌≡◌, refl, arith, List, length, leb, le→leb, if◌then◌else◌}
use rdbms.Core.{ok, err, io}
use rdbms.Bytes.{slice}
use rdbms.Vfs.Overlay.{overlay}
use rdbms.Vfs.File.{VfsFile, FileLaws, NeverFails}

abbrev pub memory : VfsFile
memory = record {
  File = List ℕ;
  read_exact_at = λ o n f. if leb (o + n) (length f) then ok (slice f o n) else err io;
  write_all_at = λ o d f. (ok tt, overlay f o d);
  len = λ f. ok (length f);
  sync_data = λ f. (ok tt, f);
}

pub read_inv :
    (o n : ℕ) (f bs : List ℕ)
    → memory.read_exact_at o n f ≡ ok bs
    → (o + n ≤ length f) × (bs ≡ slice f o n)
read_inv o n f bs h = ground arith

pub len_inv : (f : List ℕ) (n : ℕ) → memory.len f ≡ ok n → n ≡ length f
len_inv f n h = ground arith

abbrev pub memory_laws : FileLaws memory
memory_laws = record {
  content = λ f. f;
  read_is_slice = read_inv;
  write_is_overlay = λ o d f h. refl;
  len_is_length = len_inv;
  sync_keeps = λ f. refl;
}

abbrev pub memory_healthy : NeverFails memory memory_laws
memory_healthy = record {
  reads = λ o n f h. rw (le→leb _ _ h) refl;
  writes = λ o d f h. refl;
  lens = λ f. refl;
  syncs = λ f. refl;
}
