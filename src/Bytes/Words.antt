-- ===== src/Bytes/Words.antt =====
-- Little-endian integers: the round trip, the ranges, and reads beside a write.
use rdbms.Prelude.{
  ℕ, zero, suc, ◌+◌, ◌*◌, ◌/◌, ◌%◌, ◌^◌, ◌≤◌, ◌<◌, ◌≡◌, refl, ap, arith, List, [], ◌∷◌, length, All,
  Bool, true, ◌||◌, leb, Bool-cases, leb→le, inl, inr,
}
use rdbms.Bytes.{IsByte, slice, splice, to_le_bytes, from_le_bytes, read_le, write_le}
use rdbms.Bytes.Slices.{
  length-splice, length-slice, slice-splice_self, slice-splice_below, slice-splice_above,
  All-splice, All-slice,
}
use native.Mathlib.Nat.{pow-suc}

pub length-to_le_bytes : (n v : ℕ) → length (to_le_bytes n v) ≡ n
unfolding to_le_bytes
length-to_le_bytes zero v = refl
length-to_le_bytes (suc n) v = ap suc (length-to_le_bytes n (v / 256))

pub to_le_bytes-IsByte : (n v : ℕ) → All IsByte (to_le_bytes n v)
unfolding to_le_bytes
to_le_bytes-IsByte zero v = tt
to_le_bytes-IsByte (suc n) v = (omega arith, to_le_bytes-IsByte n (v / 256))

-- `from_le_bytes` takes back every integer of n bytes.
pub from-to_le_bytes : (n v : ℕ) → v < 256 ^ n → from_le_bytes (to_le_bytes n v) ≡ v
unfolding to_le_bytes from_le_bytes
from-to_le_bytes zero v h = omega arith
from-to_le_bytes (suc n) v h =
    omega (arith, pow-suc 256 n, from-to_le_bytes n (v / 256) (omega (arith, pow-suc 256 n)))

pub from_le_bytes-lt : (bs : List ℕ) → All IsByte bs → from_le_bytes bs < 256 ^ length bs
unfolding from_le_bytes
from_le_bytes-lt [] h = omega arith
from_le_bytes-lt (b ∷ bs) h = omega (arith, pow-suc 256 (length bs), from_le_bytes-lt bs h.1)

pub to_from_le_bytes :
    (bs : List ℕ) → All IsByte bs → to_le_bytes (length bs) (from_le_bytes bs) ≡ bs
unfolding to_le_bytes from_le_bytes
to_from_le_bytes [] h = refl
to_from_le_bytes (b ∷ bs) h =
    let first : (b + 256 * from_le_bytes bs) % 256 ≡ b = omega arith in
    let rest : (b + 256 * from_le_bytes bs) / 256 ≡ from_le_bytes bs = omega arith in
    rw (first, rest) (ap (λ l. b ∷ l) (to_from_le_bytes bs h.1))

module _ (n : ℕ) (bs : List ℕ) (at : ℕ) where
  pub length-write_le : (v : ℕ) → length (write_le n bs at v) ≡ length bs
  unfolding write_le
  length-write_le v = length-splice bs at (to_le_bytes n v)

  pub write_le-IsByte : (v : ℕ) → All IsByte bs → All IsByte (write_le n bs at v)
  unfolding write_le
  write_le-IsByte v h = All-splice IsByte bs at (to_le_bytes n v) h (to_le_bytes-IsByte n v)

  pub read_le-lt : at + n ≤ length bs → All IsByte bs → read_le n bs at < 256 ^ n
  unfolding read_le
  read_le-lt fits h =
      rw (length-slice bs at n fits) at
        (from_le_bytes-lt (slice bs at n) (All-slice IsByte bs at n h))

  pub read-write_self :
      (v : ℕ) → at + n ≤ length bs → v < 256 ^ n → read_le n (write_le n bs at v) at ≡ v
  unfolding read_le write_le
  read-write_self v fits h =
      let same : slice (splice bs at (to_le_bytes n v)) at n ≡ to_le_bytes n v =
        rw (length-to_le_bytes n v) at
          (slice-splice_self bs at (to_le_bytes n v) (rw (length-to_le_bytes n v) fits)) in
      rw same (from-to_le_bytes n v h)

-- The ranges [a, a + n) and [b, b + m) do not meet.
abbrev pub apart : ℕ → ℕ → ℕ → ℕ → Bool
apart a n b m = leb (a + n) b || leb (b + m) a

pub slice-splice-apart :
    (bs : List ℕ) (start len at : ℕ) (d : List ℕ)
    → apart start len at (length d) ≡ true
    → slice (splice bs at d) start len ≡ slice bs start len
slice-splice-apart bs start len at d h = elim (Bool-cases (leb (start + len) at)) [
  | inl e ↦ slice-splice_below bs start len at d (leb→le _ _ e)
  | inr e ↦ slice-splice_above bs start len at d (ground arith)
]

module _ (bs : List ℕ) (start len : ℕ) where
  pub read-splice-apart :
      (at : ℕ) (d : List ℕ)
      → apart start len at (length d) ≡ true
      → read_le len (splice bs at d) start ≡ read_le len bs start
  unfolding read_le
  read-splice-apart at d h = ap from_le_bytes (slice-splice-apart bs start len at d h)

  pub slice-write_apart :
      (m at v : ℕ)
      → apart start len at m ≡ true
      → slice (write_le m bs at v) start len ≡ slice bs start len
  unfolding write_le
  slice-write_apart m at v h =
      slice-splice-apart bs start len at (to_le_bytes m v) (rw (length-to_le_bytes m v) h)

  pub read-write_apart :
      (m at v : ℕ)
      → apart start len at m ≡ true
      → read_le len (write_le m bs at v) start ≡ read_le len bs start
  unfolding read_le
  read-write_apart m at v h = ap from_le_bytes (slice-write_apart m at v h)
