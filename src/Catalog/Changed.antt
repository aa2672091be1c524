-- ===== src/Catalog/Changed.antt =====
-- A change of one relation that gives it a new page leaves a consistent catalog consistent.
use rdbms.Prelude.{
  ◌+◌, ◌≤◌, ◌≡◌, refl, arith, Bool, true, false, List, [], ◌∷◌, ◌++◌, ◌==◌, if◌then◌else◌, inl, inr,
  Bool-cases,
}
use rdbms.Core.{PageId, RelationId, DbResult, ok, user, reject, ok_or}
use rdbms.Core
use rdbms.Exec.{gets}
use rdbms.Catalog.Format.{Text, StorageObject, heap, b_plus_tree, RelationInfo, Catalog}
use rdbms.Catalog.Change.{change_relation, push_page, set_root_page, with_storage, change_storage}
use rdbms.Catalog.Consistent.{
  total, occurrences, pages_of, id_at, name_at, page_at, IsConsistent, occurrences-append,
  total-change_relation,
}
use rdbms.Catalog.Keeps.{Does, Does-bind, Done, IsNewPage}

-- A change of one relation that keeps its id and its name and adds at most the page p.
abbrev pub AddsPage : PageId → (RelationInfo → DbResult RelationInfo) → Type 0
AddsPage p change =
    (r s : RelationInfo)
    → change r ≡ ok s
    → (s.id ≡ r.id)
      × (s.name ≡ r.name)
      × ((q : PageId)
          → occurrences q (pages_of s.storage)
            ≤ occurrences q (pages_of r.storage) + (if p == q then 1 else 0))

module _ (p : PageId) (id : RelationId) (change : RelationInfo → DbResult RelationInfo)
    (adds : AddsPage p change) where
  changed-IsConsistent :
      (c : Catalog) (ss : List RelationInfo)
      → IsConsistent c
      → IsNewPage p c
      → change_relation id change c.relations ≡ ok ss
      → IsConsistent (record c { relations = ss })
  changed-IsConsistent c ss h (unused, small, positive) e =
      let ids_same = λ (i : RelationId).
        let (r, s, made, sum) = total-change_relation (id_at i) id change c.relations ss e in
        let same : id_at i s ≡ id_at i r = rw (adds r s made).0 refl in
        let t : total (id_at i) ss ≡ total (id_at i) c.relations = omega (arith, sum, same) in t in
      let names_same = λ (n : Text).
        let (r, s, made, sum) = total-change_relation (name_at n) id change c.relations ss e in
        let same : name_at n s ≡ name_at n r = rw (adds r s made).1 refl in
        let t : total (name_at n) ss ≡ total (name_at n) c.relations = omega (arith, sum, same) in
        t in
      let pages_grow = λ (q : PageId).
        let (r, s, made, sum) = total-change_relation (page_at q) id change c.relations ss e in
        let t : total (page_at q) ss ≤ total (page_at q) c.relations + (if p == q then 1 else 0) =
          omega (arith, sum, (adds r s made).2 q) in
        t in
      record {
        ids = λ i. rw (ids_same i) (h.ids i);
        ids_below = λ i le. rw (ids_same i) (h.ids_below i le);
        names = λ n. rw (names_same n) (h.names n);
        pages = λ q. elim (Bool-cases (p == q)) [
          | inl y ↦
              let same : p ≡ q = ground (arith, y) in
              omega (arith, rw y at (pages_grow q), rw same at unused)
          | inr n ↦ omega (arith, rw n at (pages_grow q), h.pages q)
        ];
        pages_below = λ q le.
            let other : (p == q) ≡ false = ground (arith, le, small) in
            omega (arith, rw other at (pages_grow q), h.pages_below q le);
        first_page = h.first_page;
        ids_fit = h.ids_fit;
        pages_fit = h.pages_fit;
        catalog_page =
            let other : (p == 0) ≡ false = ground (arith, positive) in
            omega (arith, rw other at (pages_grow 0), h.catalog_page);
      }

  pub Does-change : Does (IsNewPage p) (change_storage id change) Done
  unfolding change_storage
  Does-change =
      Does-bind (IsNewPage p)
        (λ ss c. IsNewPage p c × (change_relation id change c.relations ≡ ok ss)) _
        (gets (λ c. change_relation id change c.relations)) _
        (record { run = λ c h x. (h, λ ss e. (h, (x, e))) })
        (λ ss. record {
          run =
              λ c h x. let done = changed-IsConsistent c ss h x.0 x.1 in (done, λ a e. (done, tt));
        })

-- The one relation that `with_storage` makes.
with_storage_inv :
    (right : Bool) (change : StorageObject → DbResult StorageObject) (r s : RelationInfo)
    → with_storage right change r ≡ ok s
    → (storage : StorageObject) × (change r.storage ≡ ok storage)
      × (s ≡ record r { storage = storage })
unfolding with_storage
with_storage_inv false change r s e = cc
with_storage_inv true change r s e =
    let (storage, made, same) =
      Core.bind_inv (change r.storage) (λ storage. ok (record r { storage = storage })) e in
    (storage, made, cc)

pub with_storage-AddsPage :
    (p : PageId) (right : RelationInfo → Bool) (change : StorageObject → DbResult StorageObject)
    → ((x y : StorageObject)
        → change x ≡ ok y
        → (q : PageId)
        → occurrences q (pages_of y) ≤ occurrences q (pages_of x) + (if p == q then 1 else 0))
    → AddsPage p (λ r. with_storage (right r) change r)
with_storage-AddsPage p right change grows r s e =
    let (storage, made, same) = with_storage_inv (right r) change r s e in
    rw same (refl, refl, grows r.storage storage made)

pub push_page-grows :
    (p : PageId) (x y : StorageObject)
    → push_page p x ≡ ok y
    → (q : PageId)
    → occurrences q (pages_of y) ≤ occurrences q (pages_of x) + (if p == q then 1 else 0)
unfolding push_page pages_of occurrences
push_page-grows p (heap x) y e q =
    let same : y ≡ heap (record { pages = x.pages ++ (p ∷ []) }) = cc in
    rw (same, occurrences-append q x.pages (p ∷ [])) (omega arith)
push_page-grows p (b_plus_tree x) y e q = cc

pub set_root_page-grows :
    (p : PageId) (x y : StorageObject)
    → set_root_page p x ≡ ok y
    → (q : PageId)
    → occurrences q (pages_of y) ≤ occurrences q (pages_of x) + (if p == q then 1 else 0)
unfolding set_root_page pages_of occurrences
set_root_page-grows p (heap x) y e q = cc
set_root_page-grows p (b_plus_tree x) y e q =
    let same : y ≡ b_plus_tree (record x { root_page_id = p }) = cc in rw same (omega arith)
