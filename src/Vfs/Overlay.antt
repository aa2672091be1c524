-- ===== src/Vfs/Overlay.antt =====
-- The bytes of a file after a write at an offset.
use rdbms.Prelude.{
  ℕ, ◌+◌, ◌-◌, ◌≤◌, ◌≡◌, ap, ◌∙◌, arith, List, ◌++◌, length, replicate, length-append,
  length-replicate, inl, inr, ◌⊎◌,
}
use rdbms.Bytes.{slice, splice}
use rdbms.Bytes.Slices.{
  length-splice, slice-splice_self, slice-splice_below, slice-splice_above, slice-append_left,
  splice-append, splice_all,
}

-- It grows with zeros where the write ends or starts beyond its end.
unfoldable pub overlay : List ℕ → ℕ → List ℕ → List ℕ
overlay bytes offset payload =
    splice (bytes ++ replicate (offset + length payload - length bytes) 0) offset payload

-- The written range reads back the payload.
pub slice-overlay_self :
    (bs : List ℕ) (o : ℕ) (d : List ℕ) → slice (overlay bs o d) o (length d) ≡ d
unfolding overlay
slice-overlay_self bs o d = slice-splice_self (bs ++ replicate (o + length d - length bs) 0) o d (
    omega (
      arith,
      length-append bs (replicate (o + length d - length bs) 0),
      length-replicate {A = ℕ} (o + length d - length bs) 0,
    ))

-- A range that was there, and that the write does not touch, reads as before.
pub slice-overlay_other :
    (bs : List ℕ) (o : ℕ) (d : List ℕ) (s n : ℕ)
    → s + n ≤ length bs
    → (s + n ≤ o) ⊎ (o + length d ≤ s)
    → slice (overlay bs o d) s n ≡ slice bs s n
unfolding overlay
slice-overlay_other bs o d s n h (inl below) =
    slice-splice_below _ s n o d below ∙ slice-append_left bs _ s n h
slice-overlay_other bs o d s n h (inr above) =
    slice-splice_above _ s n o d above ∙ slice-append_left bs _ s n h

pub length-overlay :
    (bs : List ℕ) (o : ℕ) (d : List ℕ)
    → (length bs ≤ length (overlay bs o d)) × (o + length d ≤ length (overlay bs o d))
unfolding overlay
length-overlay bs o d = omega (
  arith,
  length-splice (bs ++ replicate (o + length d - length bs) 0) o d,
  length-append bs (replicate (o + length d - length bs) 0),
  length-replicate {A = ℕ} (o + length d - length bs) 0,
)

-- A write at the end appends.
pub overlay_end : (bs d : List ℕ) → overlay bs (length bs) d ≡ bs ++ d
unfolding overlay
overlay_end bs d =
    splice-append bs (replicate (length bs + length d - length bs) 0) d
    ∙ ap (λ l. bs ++ l)
        (splice_all (replicate (length bs + length d - length bs) 0) d
          (omega (arith, length-replicate {A = ℕ} (length bs + length d - length bs) 0)))
