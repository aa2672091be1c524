-- ===== src/Page/Compact/Place.antt =====
-- The second loop of `compact`: where it puts the records.
use rdbms.Prelude.{
  ℕ, suc, ◌+◌, ◌-◌, ◌≤◌, ◌<◌, ◌≡◌, ◌≢◌, refl, ◌∙◌, arith, ltb, none, some, List, [], ◌∷◌, length,
  All, ◌⊎◌, inl, inr, Bool-cases,
}
use rdbms.Core.{ok, panicked}
use rdbms.Bytes.{IsByte, slice}
use rdbms.Bytes.Slices.{slice-splice_self}
use rdbms.Page.Format.{page_size, slot_live, slot_offset, SlotEntry, Page, IsPage}
use rdbms.Page.Ops.{put_bytes, put_slot, write_slot_entry, place_records}
use rdbms.Page.Shape.{slot_at, entry}
use rdbms.Page.Frame.{
  AgreeOn, AgreeOn-trans, agree_entry, agree-put_bytes, agree-put_slot, put_bytes-IsPage,
  put_slot-IsPage, entry-put_slot,
}
use rdbms.Page.SlotWrite.{slots_apart}
use rdbms.Page.Compact.Collect.{total, find_in, IsOrdered, find_in-below}

-- Slot j is live, and holds d between lo and hi.
pub record Holds (c : Page) (j : ℕ) (d : List ℕ) (lo hi : ℕ) : Type 0 where
  pub live : (entry c j).flags ≡ slot_live
  pub len : (entry c j).len ≡ length d
  pub above : lo ≤ (entry c j).offset
  pub below : (entry c j).offset + length d ≤ hi
  pub stored : slice c.bytes (entry c j).offset (length d) ≡ d

Holds-wider :
    {c : Page} {j : ℕ} {d : List ℕ} {lo a b : ℕ} → a ≤ b → Holds c j d lo a → Holds c j d lo b
Holds-wider h x = record {
  live = x.live;
  len = x.len;
  above = x.above;
  below = omega (arith, x.below);
  stored = x.stored;
}

find_in-cons_none :
    (i j : ℕ) (d : List ℕ) (l : List (ℕ × List ℕ))
    → find_in ((i, d) ∷ l) j ≡ none
    → (j ≢ i) × (find_in l j ≡ none)
unfolding find_in
find_in-cons_none i j d l e = ground arith

find_in-cons_some :
    (i j : ℕ) (d e : List ℕ) (l : List (ℕ × List ℕ))
    → find_in ((i, d) ∷ l) j ≡ some e
    → ((j ≡ i) × (d ≡ e)) ⊎ (find_in l j ≡ some e)
unfolding find_in
find_in-cons_some i j d e l h = ground arith

-- The records of l have moved below f, down to f', in the directory of n slots.
pub record Placed (c c' : Page) (f f' n : ℕ) (l : List (ℕ × List ℕ)) : Type 0 where
  pub page : IsPage c'
  pub sum : f' + total l ≡ f
  pub low : AgreeOn c' c 0 34
  pub high : AgreeOn c' c f page_size
  pub others : (j : ℕ) → j < n → find_in l j ≡ none → entry c' j ≡ entry c j
  pub moved : (j : ℕ) (d : List ℕ) → find_in l j ≡ some d → Holds c' j d f' f

abbrev placed_slot : ℕ → List ℕ → SlotEntry
placed_slot at d = record { offset = at; len = length d; flags = slot_live }

-- The page after one round.
abbrev after : Page → ℕ → ℕ → List ℕ → Page
after c f i d = put_slot (slot_at i) (placed_slot (f - length d) d) (put_bytes (f - length d) d c)

place_step :
    (c : Page) (f i : ℕ) (d : List ℕ) (rest : List (ℕ × List ℕ))
    → length d ≤ f
    → slot_at (suc i) ≤ page_size
    → place_records f ((i, d) ∷ rest) c ≡ place_records (f - length d) rest (after c f i d)
unfolding place_records write_slot_entry slot_offset
place_step c f i d rest h k = ground arith

-- With too many bytes for the space below f, the loop panics.
pub place_panics :
    (l : List (ℕ × List ℕ)) (lo n f : ℕ) (c : Page)
    → slot_at n ≤ page_size
    → IsOrdered lo n l
    → f < total l
    → (place_records f l c).0 ≡ panicked
unfolding total
place_panics [] lo n f c in_page o h = absurd (omega arith)
place_panics ((i, d) ∷ rest) lo n f c in_page o h = elim (Bool-cases (ltb f (length d))) [
  | inl full ↦ unfold place_records in rw full
  | inr room ↦
      let fits : length d ≤ f = ground arith in
      rw (place_step c f i d rest fits (omega arith))
        (place_panics rest (i + 1) n (f - length d) _ in_page o.3 (omega arith))
]

module _ (n : ℕ) (in_page : slot_at n ≤ page_size) where
  module _ (c : Page) (v : IsPage c) (f i : ℕ) (d : List ℕ) (claimed : i < n) (bytes : All IsByte d)
      (room : slot_at n + length d ≤ f) (top : f ≤ page_size) where
    abbrev at : ℕ
    at = f - length d

    abbrev copied : Page
    copied = put_bytes at d c

    abbrev c1 : Page
    c1 = after c f i d

    round-IsPage : IsPage c1
    round-IsPage =
        put_slot-IsPage copied (put_bytes-IsPage c v at d bytes) (slot_at i) (placed_slot at d)

    round_low : AgreeOn c1 c 0 34
    round_low =
        AgreeOn-trans c1 copied c 0 34
          (agree-put_slot copied 0 34 (slot_at i) (placed_slot at d) (omega arith))
          (agree-put_bytes c 0 34 at d (omega arith))

    round_high : AgreeOn c1 c f page_size
    round_high =
        AgreeOn-trans c1 copied c f page_size
          (agree-put_slot copied f page_size (slot_at i) (placed_slot at d) (omega arith))
          (agree-put_bytes c f page_size at d (omega arith))

    round_other : (j : ℕ) → j < n → j ≢ i → entry c1 j ≡ entry c j
    round_other j h ne =
        agree_entry c1 copied j (
          agree-put_slot copied (slot_at j) (slot_at (suc j)) (slot_at i) (placed_slot at d)
            (slots_apart i j ne))
        ∙ agree_entry copied c j
            (agree-put_bytes c (slot_at j) (slot_at (suc j)) at d (omega arith))

    round_slot : entry c1 i ≡ placed_slot at d
    round_slot =
        entry-put_slot copied (put_bytes-IsPage c v at d bytes) i (placed_slot at d) (omega arith)
          (omega arith) (omega arith) (omega arith)

    round_stored : slice c1.bytes at (length d) ≡ d
    unfolding put_bytes
    round_stored =
        agree-put_slot copied at f (slot_at i) (placed_slot at d) (inr (omega arith)) at (length d)
          (omega arith) (omega arith)
        ∙ slice-splice_self c.bytes at d (omega (arith, v.sized))

    module _ (rest : List (ℕ × List ℕ)) (fresh : find_in rest i ≡ none) (f' : ℕ) (c' : Page)
        (r : Placed c1 c' at f' n rest) where
      round-Holds : Holds c' i d f' f
      round-Holds =
          let e : entry c' i ≡ placed_slot at d = r.others i claimed fresh ∙ round_slot in
          record {
            live = rw e;
            len = rw e;
            above = rw e (omega (arith, r.sum));
            below = rw e (omega arith);
            stored = rw e (r.high at (length d) (omega arith) (omega arith) ∙ round_stored);
          }

      pub round-Placed : Placed c c' f f' n ((i, d) ∷ rest)
      unfolding total find_in
      round-Placed = record {
        page = r.page;
        sum = omega (arith, r.sum);
        low = AgreeOn-trans c' c1 c 0 34 r.low round_low;
        high = λ s k lo hi. r.high s k (omega arith) hi ∙ round_high s k lo hi;
        others = λ j h e.
            let (ne, tail) = find_in-cons_none i j d rest e in
            r.others j h tail ∙ round_other j h ne;
        moved = λ j e p. elim (find_in-cons_some i j d e rest p) [
          | inl (at_i, same) ↦ rw (at_i, ← same) round-Holds
          | inr tail ↦ Holds-wider (omega arith) (r.moved j e tail)
        ];
      }

  -- With room for all the records, the loop ends, and every record stands in its slot.
  pub place_records_lem :
      (l : List (ℕ × List ℕ)) (lo f : ℕ) (c : Page)
      → IsPage c
      → IsOrdered lo n l
      → slot_at n + total l ≤ f
      → f ≤ page_size
      → (f' : ℕ) × (c' : Page) × (place_records f l c ≡ (ok f', c')) × Placed c c' f f' n l
  unfolding total find_in
  place_records_lem [] lo f c v o room top = (
    f,
    c,
    unfold place_records in refl,
    record {
      page = v;
      sum = omega arith;
      low = λ s k a b. refl;
      high = λ s k a b. refl;
      others = λ j h e. refl;
      moved = λ j d e. cc;
    },
  )
  place_records_lem ((i, d) ∷ rest) lo f c v o room top =
      let (f', c', e, r) =
        place_records_lem rest (i + 1) (f - length d) (after c f i d)
          (round-IsPage c v f i d o.1 o.2 (omega arith) top) o.3 (omega arith) (omega arith) in
      (
        f',
        c',
        place_step c f i d rest (omega arith) (omega arith) ∙ e,
        round-Placed c v f i d o.1 o.2 (omega arith) top rest
            (find_in-below rest (i + 1) n i o.3 (omega arith)) f' c' r,
      )
