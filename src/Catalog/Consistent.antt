-- ===== src/Catalog/Consistent.antt =====
-- When a catalog is consistent, by how often its relations have an id, a name and a page.
use rdbms.Prelude.{
  ◌^◌, ◌≡◌, ℕ, ◌+◌, ◌≤◌, ◌<◌, refl, arith, true, List, [], ◌∷◌, ◌++◌, ◌==◌, if◌then◌else◌, inl, inr,
  Bool-cases,
}
use rdbms.Core.{PageId, RelationId, DbResult, ok}
use rdbms.Core
use rdbms.Catalog.Format.{Text, text_eq, StorageObject, heap, b_plus_tree, RelationInfo, Catalog}
use rdbms.Catalog.Change.{change_relation}

unfoldable pub total : (RelationInfo → ℕ) → List RelationInfo → ℕ
total weight [] = 0
total weight (r ∷ relations) = weight r + total weight relations

unfoldable pub occurrences : PageId → List PageId → ℕ
occurrences p [] = 0
occurrences p (q ∷ pages) = (if q == p then 1 else 0) + occurrences p pages

-- The pages that a relation refers to.
unfoldable pub pages_of : StorageObject → List PageId
pages_of (heap storage) = storage.pages
pages_of (b_plus_tree storage) = storage.root_page_id ∷ []

abbrev pub id_at : RelationId → RelationInfo → ℕ
id_at id r = if r.id == id then 1 else 0

abbrev pub name_at : Text → RelationInfo → ℕ
name_at name r = if text_eq r.name name then 1 else 0

abbrev pub page_at : PageId → RelationInfo → ℕ
page_at p r = occurrences p (pages_of r.storage)

-- No two relations have the same id or the same name, no page is in use twice, the counters are above
-- all that is in use and fit into 64 bits, and the page 0 is the catalog's.
pub record IsConsistent (c : Catalog) : Type 0 where
  pub ids : (id : RelationId) → total (id_at id) c.relations ≤ 1
  pub ids_below : (id : RelationId) → c.next_relation_id ≤ id → total (id_at id) c.relations ≡ 0
  pub names : (name : Text) → total (name_at name) c.relations ≤ 1
  pub pages : (p : PageId) → total (page_at p) c.relations ≤ 1
  pub pages_below : (p : PageId) → c.next_page_id ≤ p → total (page_at p) c.relations ≡ 0
  pub first_page : 0 < c.next_page_id
  pub catalog_page : total (page_at 0) c.relations ≡ 0
  pub ids_fit : c.next_relation_id < 2 ^ 64
  pub pages_fit : c.next_page_id < 2 ^ 64

pub total-append :
    (weight : RelationInfo → ℕ) (rs ss : List RelationInfo)
    → total weight (rs ++ ss) ≡ total weight rs + total weight ss
unfolding total
total-append weight [] ss = omega arith
total-append weight (r ∷ rs) ss = omega (arith, total-append weight rs ss)

pub occurrences-append :
    (p : PageId) (xs ys : List PageId)
    → occurrences p (xs ++ ys) ≡ occurrences p xs + occurrences p ys
unfolding occurrences
occurrences-append p [] ys = omega arith
occurrences-append p (x ∷ xs) ys = omega (arith, occurrences-append p xs ys)

pub text_eq_sound : (a b : Text) → text_eq a b ≡ true → a ≡ b
unfolding text_eq
text_eq_sound [] [] h = refl
text_eq_sound [] (y ∷ ys) h = cc
text_eq_sound (x ∷ xs) [] h = cc
text_eq_sound (x ∷ xs) (y ∷ ys) h = elim (Bool-cases (x == y)) [
  | inl same ↦
      let e : x ≡ y = ground (arith, same) in
      let rest = text_eq_sound xs ys (rw same at h) in rw (e, rest) refl
  | inr other ↦ cc (rw other at h)
]

-- The change of one relation changes each sum by what it does to that relation.
pub total-change_relation :
    (weight : RelationInfo → ℕ) (id : RelationId) (change : RelationInfo → DbResult RelationInfo)
    (rs ss : List RelationInfo)
    → change_relation id change rs ≡ ok ss
    → (r s : RelationInfo) × (change r ≡ ok s)
      × (total weight ss + weight r ≡ total weight rs + weight s)
unfolding total change_relation
total-change_relation weight id change [] ss h = cc
total-change_relation weight id change (r ∷ rs) ss h = elim (Bool-cases (r.id == id)) [
  | inl y ↦
      let (s, changed, same) =
        Core.bind_inv (change r) (λ changed. ok (changed ∷ rs)) (rw y at h) in
      let e : ss ≡ s ∷ rs = cc in (r, s, changed, rw e (omega arith))
  | inr n ↦
      let (others, rest, same) =
        Core.bind_inv (change_relation id change rs) (λ others. ok (r ∷ others)) (rw n at h) in
      let (q, s, changed, sum) = total-change_relation weight id change rs others rest in
      let e : ss ≡ r ∷ others = cc in (q, s, changed, rw e (omega (arith, sum)))
]
