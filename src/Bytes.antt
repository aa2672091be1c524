-- ===== src/Bytes.antt =====
-- Byte buffers: slices, `copy_from_slice`, and little-endian integers (`to_le_bytes` and
-- `from_le_bytes`), as the page, WAL, catalog, index and row formats use them.
pub mod Slices
pub mod Words
use rdbms.Prelude.{ℕ, zero, suc, ◌+◌, ◌*◌, ◌/◌, ◌%◌, ◌<◌, List, [], ◌∷◌, length, take, drop}

abbrev pub IsByte : ℕ → Type 0
IsByte b = b < 256

-- `bytes[start..start + len]`, for a range inside the buffer.
unfoldable pub slice : List ℕ → ℕ → ℕ → List ℕ
slice bytes start len = take len (drop start bytes)

-- `bytes[at..at + data.len()].copy_from_slice(data)`, for a range inside the buffer.
unfoldable pub splice : List ℕ → ℕ → List ℕ → List ℕ
splice [] at d = []
splice (x ∷ xs) zero [] = x ∷ xs
splice (x ∷ xs) zero (y ∷ d) = y ∷ splice xs zero d
splice (x ∷ xs) (suc at) d = x ∷ splice xs at d

-- `value.to_le_bytes()` of an integer of n bytes.
unfoldable pub to_le_bytes : ℕ → ℕ → List ℕ
to_le_bytes zero v = []
to_le_bytes (suc n) v = (v % 256) ∷ to_le_bytes n (v / 256)

unfoldable pub from_le_bytes : List ℕ → ℕ
from_le_bytes [] = 0
from_le_bytes (b ∷ bs) = b + 256 * from_le_bytes bs

-- `read_u16`, `read_u32` and `read_u64` are `read_le` at 2, 4 and 8, and so for the writers.
unfoldable pub read_le : ℕ → List ℕ → ℕ → ℕ
read_le n bytes offset = from_le_bytes (slice bytes offset n)

unfoldable pub write_le : ℕ → List ℕ → ℕ → ℕ → List ℕ
write_le n bytes offset value = splice bytes offset (to_le_bytes n value)
