-- ===== src/Vfs/File.antt =====
-- The trait `VfsFile`. The operating system's files are not part of the program: a file is any type
-- with these operations, and the laws below are hypotheses where a statement needs them.
use rdbms.Prelude.{ℕ, ◌+◌, ◌^◌, ◌≤◌, ◌<◌, ◌≡◌, List, length}
use rdbms.Core.{DbResult, ok}
use rdbms.Exec.{Exec}
use rdbms.Bytes.{slice}
use rdbms.Vfs.Overlay.{overlay}

pub record VfsFile : Type 1 where
  pub File : Type 0
  -- Read exactly a number of bytes from an offset on.
  pub read_exact_at : ℕ → ℕ → File → DbResult (List ℕ)
  -- Write all bytes from an offset on.
  pub write_all_at : ℕ → List ℕ → Exec File (Unit {0})
  pub len : File → DbResult ℕ
  pub sync_data : Exec File (Unit {0})

-- Offsets and lengths that the operating system's signed 64-bit offsets hold.
abbrev pub max_offset : ℕ
max_offset = 2 ^ 63

-- What a file does when its operations succeed. `content` is the bytes that it holds.
pub record FileLaws (vfs : VfsFile) : Type 0 where
  pub content : vfs.File → List ℕ
  pub read_is_slice :
      (o n : ℕ) (f : vfs.File) (bs : List ℕ)
      → vfs.read_exact_at o n f ≡ ok bs
      → (o + n ≤ length (content f)) × (bs ≡ slice (content f) o n)
  pub write_is_overlay :
      (o : ℕ) (d : List ℕ) (f : vfs.File)
      → (vfs.write_all_at o d f).0 ≡ ok tt
      → content (vfs.write_all_at o d f).1 ≡ overlay (content f) o d
  pub len_is_length : (f : vfs.File) (n : ℕ) → vfs.len f ≡ ok n → n ≡ length (content f)
  pub sync_keeps : (f : vfs.File) → content (vfs.sync_data f).1 ≡ content f

-- A disk that does not fail: what is there can be read, and there is room to write.
pub record NeverFails (vfs : VfsFile) (laws : FileLaws vfs) : Type 0 where
  pub reads :
      (o n : ℕ) (f : vfs.File)
      → o + n ≤ length (laws.content f)
      → vfs.read_exact_at o n f ≡ ok (slice (laws.content f) o n)
  pub writes :
      (o : ℕ) (d : List ℕ) (f : vfs.File)
      → o + length d < max_offset
      → (vfs.write_all_at o d f).0 ≡ ok tt
  pub lens : (f : vfs.File) → vfs.len f ≡ ok (length (laws.content f))
  pub syncs : (f : vfs.File) → (vfs.sync_data f).0 ≡ ok tt
