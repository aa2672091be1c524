-- ===== src/Page/Compact/Collect.antt =====
-- The first loop of `compact`: which live records it collects.
use mathlib.Core.List.{append-nil, append_assoc}
use rdbms.Prelude.{
  ℕ, zero, suc, ◌+◌, ◌≤◌, ◌<◌, ◌≡◌, refl, ap, sym, ◌∙◌, arith, ◌==◌, if◌then◌else◌, Option, none,
  some, List, [], ◌∷◌, ◌++◌, length, All, inl, inr, Bool-cases,
}
use rdbms.Core.{ok}
use rdbms.Bytes.{IsByte, slice}
use rdbms.Bytes.Slices.{All-slice}
use rdbms.Page.Format.{is_live, PageType, Page}
use rdbms.Page.Ops.{live_records}
use rdbms.Page.Shape.{slot_count, entry, IsWellFormed, slot_entry_ok, slot_in_page}
use rdbms.Page.Lookup.{held, read_record-held}

-- The live records of the slots from i to i + n, in slot order.
unfoldable pub lives : Page → ℕ → ℕ → List (ℕ × List ℕ)
lives p zero i = []
lives p (suc n) i =
    let rest = lives p n (i + 1) in
    if is_live (entry p i)
    then (i, slice p.bytes (entry p i).offset (entry p i).len) ∷ rest
    else rest

-- The bytes of all records of a list.
unfoldable pub total : List (ℕ × List ℕ) → ℕ
total [] = 0
total ((i, d) ∷ rest) = length d + total rest

unfoldable pub find_in : List (ℕ × List ℕ) → ℕ → Option (List ℕ)
find_in [] j = none
find_in ((i, d) ∷ rest) j = if i == j then some d else find_in rest j

-- Slots in ascending order from lo on and below n, with bytes as payloads.
abbrev pub IsOrdered : ℕ → ℕ → List (ℕ × List ℕ) → Type 0
IsOrdered lo n [] = Unit
IsOrdered lo n ((i, d) ∷ rest) = (lo ≤ i) × (i < n) × All IsByte d × IsOrdered (i + 1) n rest

pub find_in-below :
    (l : List (ℕ × List ℕ)) (lo n j : ℕ) → IsOrdered lo n l → j < lo → find_in l j ≡ none
unfolding find_in
find_in-below [] lo n j o h = refl
find_in-below ((i, d) ∷ rest) lo n j o h =
    ground (arith, find_in-below rest (i + 1) n j o.3 (omega arith))

IsOrdered-lower : (l : List (ℕ × List ℕ)) (a b n : ℕ) → a ≤ b → IsOrdered b n l → IsOrdered a n l
IsOrdered-lower [] a b n h o = tt
IsOrdered-lower ((i, d) ∷ rest) a b n h o = (omega arith, o.1, o.2, o.3)

module _ {p : Page} {t : PageType} (w : IsWellFormed p t) where
  pub lives-IsOrdered : (n i : ℕ) → i + n ≤ slot_count p → IsOrdered i (slot_count p) (lives p n i)
  unfolding lives
  lives-IsOrdered zero i h = tt
  lives-IsOrdered (suc n) i h = elim (Bool-cases (is_live (entry p i))) [
    | inl live ↦ rw live (
      omega arith,
      omega arith,
      All-slice IsByte p.bytes (entry p i).offset (entry p i).len w.page.in_range,
      lives-IsOrdered n (i + 1) (omega arith),
    )
    | inr other ↦ rw other (
        IsOrdered-lower (lives p n (i + 1)) i (i + 1) (slot_count p) (omega arith)
          (lives-IsOrdered n (i + 1) (omega arith)))
  ]

  pub find_in-lives :
      (n i j : ℕ)
      → i + n ≤ slot_count p
      → i ≤ j
      → j < i + n
      → find_in (lives p n i) j ≡ held p (entry p j)
  unfolding lives find_in
  find_in-lives zero i j h a b = absurd (omega arith)
  find_in-lives (suc n) i j h a b = ground (
    arith,
    find_in-below (lives p n (i + 1)) (i + 1) (slot_count p) j
        (lives-IsOrdered n (i + 1) (omega arith)),
    find_in-lives n (i + 1) j (omega arith),
  )

  -- The first loop collects exactly the live records and leaves the page alone.
  pub live_records_lem :
      (n i : ℕ) (found : List (ℕ × List ℕ))
      → i + n ≤ slot_count p
      → live_records n i found p ≡ (ok (found ++ lives p n i), p)
  unfolding live_records lives
  live_records_lem zero i found h = ap (λ l. (ok l, p)) (sym (append-nil found))
  live_records_lem (suc n) i found h = elim (Bool-cases (is_live (entry p i))) [
    | inl live ↦
        rw
          (
            slot_entry_ok p i (slot_in_page i w.formatted (omega arith)),
            live,
            read_record-held w i (omega arith),
            live,
          )
          (live_records_lem n (i + 1)
              (found ++ ((i, slice p.bytes (entry p i).offset (entry p i).len) ∷ [])) (omega arith)
            ∙ ap (λ l. (ok l, p)) (append_assoc found _ _))
    | inr other ↦
        rw (slot_entry_ok p i (slot_in_page i w.formatted (omega arith)), other)
          (live_records_lem n (i + 1) found (omega arith))
  ]
