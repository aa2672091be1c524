-- ===== src/Tx/Sorted.antt =====
-- The staged pages are a map: sorted by id, with the last page that was inserted for each.
use rdbms.Prelude.{
  ℕ, zero, suc, take, All-take, ◌<◌, ◌≡◌, refl, arith, none, some, [], ◌∷◌, All, ltb, ◌==◌,
  if◌then◌else◌, inl, inr, Bool-cases,
}
use rdbms.Core.{PageId}
use rdbms.Page.Format.{Page}
use rdbms.Tx.Pages.{DirtyPages, get_page, insert_page}

abbrev pub IsAbove : ℕ → DirtyPages → Type 0
IsAbove k pages = All (λ (e : PageId × Page). k < e.0) pages

abbrev pub IsSorted : DirtyPages → Type 0
IsSorted [] = Unit
IsSorted (e ∷ pages) = IsAbove e.0 pages × IsSorted pages

pub IsAbove-trans : (a b : ℕ) (pages : DirtyPages) → a < b → IsAbove b pages → IsAbove a pages
IsAbove-trans a b [] h x = tt
IsAbove-trans a b (e ∷ pages) h x = (omega (arith, x.0), IsAbove-trans a b pages h x.1)

insert_page-IsAbove :
    (k id : ℕ) (page : Page) (pages : DirtyPages)
    → k < id
    → IsAbove k pages
    → IsAbove k (insert_page id page pages)
unfolding insert_page
insert_page-IsAbove k id page [] h x = (h, tt)
insert_page-IsAbove k id page ((j, p) ∷ pages) h x = elim (Bool-cases (ltb id j)) [
  | inl y ↦ rw y (h, x)
  | inr y ↦ elim (Bool-cases (j == id)) [
    | inl z ↦ rw (y, z) (h, x.1)
    | inr z ↦ rw (y, z) (x.0, insert_page-IsAbove k id page pages h x.1)
  ]
]

pub insert_page-IsSorted :
    (id : PageId) (page : Page) (pages : DirtyPages)
    → IsSorted pages
    → IsSorted (insert_page id page pages)
unfolding insert_page
insert_page-IsSorted id page [] h = (tt, tt)
insert_page-IsSorted id page ((j, p) ∷ pages) h = elim (Bool-cases (ltb id j)) [
  | inl y ↦
      let below : id < j = ground (arith, y) in
      rw y ((below, IsAbove-trans id j pages below h.0), h)
  | inr y ↦ elim (Bool-cases (j == id)) [
    | inl z ↦ let same : j ≡ id = ground (arith, z) in rw (y, z) (rw same at h)
    | inr z ↦
        let below : j < id = ground (arith, y, z) in
        rw (y, z)
          (insert_page-IsAbove j id page pages below h.0, insert_page-IsSorted id page pages h.1)
  ]
]

-- On sorted pages, an inserted page is the one that is found under its id, and the others are kept.
pub get_page-insert_page :
    (id other : PageId) (page : Page) (pages : DirtyPages)
    → IsSorted pages
    → get_page other (insert_page id page pages)
      ≡ (if id == other then some page else get_page other pages)
unfolding get_page insert_page
get_page-insert_page id other page [] h = refl
get_page-insert_page id other page ((j, p) ∷ pages) h =
    ground (arith, get_page-insert_page id other page pages h.1)

pub get_page_above :
    (id : PageId) (pages : DirtyPages) → IsAbove id pages → get_page id pages ≡ none
unfolding get_page
get_page_above id [] h = refl
get_page_above id ((j, p) ∷ pages) h = ground (arith, get_page_above id pages h.1)

take-IsAbove : (k n : ℕ) (pages : DirtyPages) → IsAbove k pages → IsAbove k (take n pages)
take-IsAbove k n pages h = All-take _ n pages h

pub take-IsSorted : (n : ℕ) (pages : DirtyPages) → IsSorted pages → IsSorted (take n pages)
unfolding take
take-IsSorted zero pages h = tt
take-IsSorted (suc n) [] h = tt
take-IsSorted (suc n) (e ∷ pages) h = (take-IsAbove e.0 n pages h.0, take-IsSorted n pages h.1)
