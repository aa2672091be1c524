-- ===== src/Bytes/Slices.antt =====
-- `slice` and `splice`: what is written is read back, and what is apart stays.
use rdbms.Prelude.{
  ℕ, zero, suc, ◌+◌, ◌≤◌, ◌≡◌, refl, ap, sym, ◌∙◌, arith, List, [], ◌∷◌, ◌++◌, length, take, drop,
  All, length-take, length-drop, take-length, All-take, All-drop,
}
use rdbms.Bytes.{slice, splice}

pub length-splice : (bs : List ℕ) (at : ℕ) (d : List ℕ) → length (splice bs at d) ≡ length bs
unfolding splice
length-splice [] at d = refl
length-splice (x ∷ xs) zero [] = refl
length-splice (x ∷ xs) zero (y ∷ d) = ap suc (length-splice xs zero d)
length-splice (x ∷ xs) (suc at) d = ap suc (length-splice xs at d)

pub length-slice :
    (bs : List ℕ) (start len : ℕ) → start + len ≤ length bs → length (slice bs start len) ≡ len
unfolding slice
length-slice bs start len h = length-take len (drop start bs) (omega (arith, length-drop start bs))

pub slice-splice_self :
    (bs : List ℕ) (at : ℕ) (d : List ℕ)
    → at + length d ≤ length bs
    → slice (splice bs at d) at (length d) ≡ d
unfolding slice splice take drop
slice-splice_self [] zero [] h = refl
slice-splice_self [] zero (y ∷ d) h = absurd (omega arith)
slice-splice_self [] (suc at) d h = absurd (omega arith)
slice-splice_self (x ∷ xs) zero [] h = refl
slice-splice_self (x ∷ xs) zero (y ∷ d) h =
    ap (λ l. y ∷ l) (slice-splice_self xs zero d (omega arith))
slice-splice_self (x ∷ xs) (suc at) d h = slice-splice_self xs at d (omega arith)

take-splice :
    (bs : List ℕ) (len at : ℕ) (d : List ℕ) → len ≤ at → take len (splice bs at d) ≡ take len bs
unfolding splice take
take-splice [] len at d h = refl
take-splice (x ∷ xs) zero at d h = refl
take-splice (x ∷ xs) (suc len) zero d h = absurd (omega arith)
take-splice (x ∷ xs) (suc len) (suc at) d h =
    ap (λ l. x ∷ l) (take-splice xs len at d (omega arith))

-- A range below the written one.
pub slice-splice_below :
    (bs : List ℕ) (start len at : ℕ) (d : List ℕ)
    → start + len ≤ at
    → slice (splice bs at d) start len ≡ slice bs start len
unfolding slice splice drop
slice-splice_below [] start len at d h = refl
slice-splice_below (x ∷ xs) zero len at d h = take-splice (x ∷ xs) len at d (omega arith)
slice-splice_below (x ∷ xs) (suc start) len zero d h = absurd (omega arith)
slice-splice_below (x ∷ xs) (suc start) len (suc at) d h =
    slice-splice_below xs start len at d (omega arith)

-- A range above the written one.
pub slice-splice_above :
    (bs : List ℕ) (start len at : ℕ) (d : List ℕ)
    → at + length d ≤ start
    → slice (splice bs at d) start len ≡ slice bs start len
unfolding slice splice drop
slice-splice_above [] start len at d h = refl
slice-splice_above (x ∷ xs) start len zero [] h = refl
slice-splice_above (x ∷ xs) zero len zero (y ∷ d) h = absurd (omega arith)
slice-splice_above (x ∷ xs) (suc start) len zero (y ∷ d) h =
    slice-splice_above xs start len zero d (omega arith)
slice-splice_above (x ∷ xs) zero len (suc at) d h = absurd (omega arith)
slice-splice_above (x ∷ xs) (suc start) len (suc at) d h =
    slice-splice_above xs start len at d (omega arith)

pub splice-splice :
    (bs : List ℕ) (at : ℕ) (d e : List ℕ)
    → length d ≡ length e
    → splice (splice bs at d) at e ≡ splice bs at e
unfolding splice
splice-splice [] at d e h = refl
splice-splice (x ∷ xs) zero [] [] h = refl
splice-splice (x ∷ xs) zero [] (z ∷ e) h = absurd (omega arith)
splice-splice (x ∷ xs) zero (y ∷ d) [] h = absurd (omega arith)
splice-splice (x ∷ xs) zero (y ∷ d) (z ∷ e) h =
    ap (λ l. z ∷ l) (splice-splice xs zero d e (omega arith))
splice-splice (x ∷ xs) (suc at) d e h = ap (λ l. x ∷ l) (splice-splice xs at d e h)

-- Writing back what stands there changes nothing.
pub splice-slice : (bs : List ℕ) (at len : ℕ) → splice bs at (slice bs at len) ≡ bs
unfolding splice slice take drop
splice-slice [] at len = refl
splice-slice (x ∷ xs) zero zero = refl
splice-slice (x ∷ xs) zero (suc len) = ap (λ l. x ∷ l) (splice-slice xs zero len)
splice-slice (x ∷ xs) (suc at) len = ap (λ l. x ∷ l) (splice-slice xs at len)

pub All-splice {κ} :
    (P : ℕ → Type κ) (bs : List ℕ) (at : ℕ) (d : List ℕ)
    → All P bs
    → All P d
    → All P (splice bs at d)
unfolding splice
All-splice P [] at d h k = h
All-splice P (x ∷ xs) zero [] h k = h
All-splice P (x ∷ xs) zero (y ∷ d) h k = (k.0, All-splice P xs zero d h.1 k.1)
All-splice P (x ∷ xs) (suc at) d h k = (h.0, All-splice P xs at d h.1 k)

pub All-slice {κ} :
    (P : ℕ → Type κ) (bs : List ℕ) (start len : ℕ) → All P bs → All P (slice bs start len)
unfolding slice
All-slice P bs start len h = All-take P len (drop start bs) (All-drop P start bs h)

take-append_left : (n : ℕ) (bs xs : List ℕ) → n ≤ length bs → take n (bs ++ xs) ≡ take n bs
unfolding take
take-append_left zero bs xs h = refl
take-append_left (suc n) [] xs h = absurd (omega arith)
take-append_left (suc n) (b ∷ bs) xs h = ap (λ l. b ∷ l) (take-append_left n bs xs (omega arith))

pub slice-append_left :
    (bs xs : List ℕ) (s n : ℕ) → s + n ≤ length bs → slice (bs ++ xs) s n ≡ slice bs s n
unfolding slice drop
slice-append_left bs xs zero n h = take-append_left n bs xs (omega arith)
slice-append_left [] xs (suc s) n h = absurd (omega arith)
slice-append_left (b ∷ bs) xs (suc s) n h = slice-append_left bs xs s n (omega arith)

pub splice-append : (bs xs d : List ℕ) → splice (bs ++ xs) (length bs) d ≡ bs ++ splice xs zero d
unfolding splice
splice-append [] xs d = refl
splice-append (b ∷ bs) xs d = ap (λ l. b ∷ l) (splice-append bs xs d)

-- A write over the whole buffer.
pub splice_all : (xs d : List ℕ) → length xs ≡ length d → splice xs zero d ≡ d
unfolding splice
splice_all [] [] h = refl
splice_all [] (y ∷ d) h = absurd (omega arith)
splice_all (x ∷ xs) [] h = absurd (omega arith)
splice_all (x ∷ xs) (y ∷ d) h = ap (λ l. y ∷ l) (splice_all xs d (omega arith))

-- A slice up to the end is what is left after a drop.
pub slice-drop : (bs : List ℕ) (s n : ℕ) → s + n ≡ length bs → slice bs s n ≡ drop s bs
unfolding slice
slice-drop bs s n h =
    let e : n ≡ length (drop s bs) = omega (arith, length-drop s bs) in
    rw e (take-length (drop s bs))

take-take : (bs : List ℕ) (m n : ℕ) → m ≤ n → take m (take n bs) ≡ take m bs
unfolding take
take-take bs zero n h = refl
take-take bs (suc m) zero h = absurd (omega arith)
take-take [] (suc m) (suc n) h = refl
take-take (b ∷ bs) (suc m) (suc n) h = ap (λ l. b ∷ l) (take-take bs m n (omega arith))

-- A slice of a slice.
slice-take : (bs : List ℕ) (n s m : ℕ) → s + m ≤ n → slice (take n bs) s m ≡ slice bs s m
unfolding slice take drop
slice-take bs n zero m h = take-take bs m n (omega arith)
slice-take bs zero (suc s) m h = absurd (omega arith)
slice-take [] (suc n) (suc s) m h = refl
slice-take (b ∷ bs) (suc n) (suc s) m h = slice-take bs n s m (omega arith)

drop-drop : (bs : List ℕ) (a s : ℕ) → drop s (drop a bs) ≡ drop (a + s) bs
unfolding drop
drop-drop bs zero s = let e : 0 + s ≡ s = omega arith in rw e
drop-drop [] (suc a) zero = let e : suc a + 0 ≡ suc (a + 0) = omega arith in rw e
drop-drop [] (suc a) (suc s) = let e : suc a + suc s ≡ suc (a + suc s) = omega arith in rw e
drop-drop (b ∷ bs) (suc a) s =
    let e : suc a + s ≡ suc (a + s) = omega arith in rw e (drop-drop bs a s)

pub slice-slice :
    (bs : List ℕ) (a n s m : ℕ) → s + m ≤ n → slice (slice bs a n) s m ≡ slice bs (a + s) m
unfolding slice
slice-slice bs a n s m h = slice-take (drop a bs) n s m h ∙ ap (take m) (drop-drop bs a s)

take-split : (bs : List ℕ) (m n : ℕ) → take m bs ++ take n (drop m bs) ≡ take (m + n) bs
unfolding take drop
take-split bs zero n = let e : 0 + n ≡ n = omega arith in rw e
take-split [] (suc m) zero = let e : suc m + 0 ≡ suc (m + 0) = omega arith in rw e
take-split [] (suc m) (suc n) = let e : suc m + suc n ≡ suc (m + suc n) = omega arith in rw e
take-split (b ∷ bs) (suc m) n =
    let e : suc m + n ≡ suc (m + n) = omega arith in rw e (ap (λ l. b ∷ l) (take-split bs m n))

-- Two neighbouring slices make one.
pub slice-split :
    (bs : List ℕ) (s m n : ℕ) → slice bs s m ++ slice bs (s + m) n ≡ slice bs s (m + n)
unfolding slice
slice-split bs s m n =
    ap (λ l. take m (drop s bs) ++ take n l) (sym (drop-drop bs s m)) ∙ take-split (drop s bs) m n

drop-append_more : (front bs : List ℕ) (k : ℕ) → drop (length front + k) (front ++ bs) ≡ drop k bs
unfolding drop
drop-append_more [] bs k = let e : 0 + k ≡ k = omega arith in rw e
drop-append_more (x ∷ front) bs k =
    let e : suc (length front) + k ≡ suc (length front + k) = omega arith in
    rw e (drop-append_more front bs k)

-- A slice behind a prefix.
pub slice-append_more :
    (front bs : List ℕ) (k n : ℕ) → slice (front ++ bs) (length front + k) n ≡ slice bs k n
unfolding slice
slice-append_more front bs k n = ap (take n) (drop-append_more front bs k)

pub slice_whole : (bs : List ℕ) → slice bs 0 (length bs) ≡ bs
unfolding slice drop
slice_whole bs = take-length bs
