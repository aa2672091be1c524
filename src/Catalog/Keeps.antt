-- ===== src/Catalog/Keeps.antt =====
-- The metadata operations keep a catalog consistent.
use rdbms.Prelude.{
  ℕ, ◌+◌, ◌<◌, ◌≡◌, refl, arith, false, List, [], ◌∷◌, ◌==◌, inl, inr, Bool-cases, ltb, ◌^◌,
}
use rdbms.Core.{PageId, RelationId, DbResult, ok, user, reject}
use rdbms.Exec.{Exec, pure, lift, gets, modify, ◌>>=◌, bind-triple}
use rdbms.Catalog.Format.{Text, text_eq, RelationInfo, Catalog}
use rdbms.Catalog.Meta.{find, is_some, relation_by_name}
use rdbms.Catalog.Change.{allocate_relation_id, allocate_page_id, push_relation}
use rdbms.Catalog.Consistent.{
  total, occurrences, pages_of, id_at, name_at, page_at, IsConsistent, total-append, text_eq_sound,
}

abbrev pub Any : Catalog → Type 0
Any c = Unit

abbrev pub Done : {A : Type 0} → A → Catalog → Type 0
Done a c = Unit

-- From a consistent catalog with X, the action leaves one, and its value has Q.
pub record Does {A : Type 0} (X : Catalog → Type 0) (m : Exec Catalog A) (Q : A → Catalog → Type 0)
    : Type 0 where
  pub run :
      (c : Catalog)
      → IsConsistent c
      → X c
      → IsConsistent (m c).1 × ((a : A) → (m c).0 ≡ ok a → IsConsistent (m c).1 × Q a (m c).1)

module _ {A B : Type 0} (X : Catalog → Type 0) where
  pub Does-bind :
      (Q : A → Catalog → Type 0) (R : B → Catalog → Type 0) (m : Exec Catalog A)
      (f : A → Exec Catalog B)
      → Does X m Q
      → ((a : A) → Does (Q a) (f a) R)
      → Does X (m >>= f) R
  Does-bind Q R m f x y = record {
    run = λ c h p.
        bind-triple IsConsistent (λ a c. IsConsistent c × Q a c) (λ b c. IsConsistent c × R b c) m f
          c (x.run c h p).0 (x.run c h p).1 (λ a q. (y a).run (m c).1 q.0 q.1);
  }

module _ {A : Type 0} (X : Catalog → Type 0) where
  pub Does-lift : (r : DbResult A) → Does X (lift r) (λ _. X)
  Does-lift r = record { run = λ c h x. (h, λ a e. (h, x)) }

  pub Does-gets : (f : Catalog → DbResult A) → Does X (gets f) (λ _. X)
  Does-gets f = record { run = λ c h x. (h, λ a e. (h, x)) }

  pub Does-pure : (a : A) → Does X (pure a) Done
  Does-pure a = record { run = λ c h x. (h, λ a e. (h, tt)) }

-- A name, an id and a page that no relation has.
abbrev pub IsFree : Text → Catalog → Type 0
IsFree name c = total (name_at name) c.relations ≡ 0

abbrev pub IsNewId : RelationId → Catalog → Type 0
IsNewId id c = (total (id_at id) c.relations ≡ 0) × (id < c.next_relation_id)

abbrev pub IsNewPage : PageId → Catalog → Type 0
IsNewPage p c = (total (page_at p) c.relations ≡ 0) × (p < c.next_page_id) × (0 < p)

free_lem :
    (name : Text) (rs : List RelationInfo)
    → is_some (find (λ r. text_eq r.name name) rs) ≡ false
    → total (name_at name) rs ≡ 0
unfolding find total
free_lem name [] h = refl
free_lem name (r ∷ rs) h = elim (Bool-cases (text_eq r.name name)) [
  | inl y ↦ cc (rw y at h)
  | inr n ↦ rw n (omega (arith, free_lem name rs (rw n at h)))
]

pub Does-IsFree :
    (name : Text)
    → Does Any (gets (λ c. reject (is_some (relation_by_name name c)) user)) (λ _. IsFree name)
unfolding relation_by_name
Does-IsFree name = record {
  run = λ c h x. (h, λ a e. (h, free_lem name c.relations (ground (arith, e))));
}

more_ids :
    (c : Catalog)
    → c.next_relation_id + 1 < 2 ^ 64
    → IsConsistent c
    → IsConsistent (record c { next_relation_id = c.next_relation_id + 1 })
more_ids c fits h = record {
  ids_fit = fits;
  pages_fit = h.pages_fit;
  ids = h.ids;
  ids_below = λ id le. h.ids_below id (omega (arith, le));
  names = h.names;
  pages = h.pages;
  pages_below = h.pages_below;
  first_page = h.first_page;
  catalog_page = h.catalog_page;
}

more_pages :
    (c : Catalog)
    → c.next_page_id + 1 < 2 ^ 64
    → IsConsistent c
    → IsConsistent (record c { next_page_id = c.next_page_id + 1 })
more_pages c fits h = record {
  ids_fit = h.ids_fit;
  pages_fit = fits;
  ids = h.ids;
  ids_below = h.ids_below;
  names = h.names;
  pages = h.pages;
  pages_below = λ p le. h.pages_below p (omega (arith, le));
  first_page = omega arith;
  catalog_page = h.catalog_page;
}

pub Does-relation_id :
    (name : Text) → Does (IsFree name) allocate_relation_id (λ id c. IsFree name c × IsNewId id c)
unfolding allocate_relation_id
Does-relation_id name = record {
  run = λ c h x. elim (Bool-cases (ltb (c.next_relation_id + 1) (2 ^ 64))) [
    | inl y ↦
        let more = more_ids c (ground (arith, y)) h in
        rw y (
          more,
          λ a e.
              let same : c.next_relation_id ≡ a = cc in
              (
                more,
                (
                  x,
                  (rw same at (h.ids_below c.next_relation_id (omega arith)), omega (arith, same)),
                ),
              ),
        )
    | inr n ↦ rw n (h, λ a e. cc)
  ];
}

-- Bumping the page counter.
pub Does-page_id :
    (X : Catalog → Type 0)
    → ((c : Catalog) (n : ℕ) → X c → X (record c { next_page_id = n }))
    → Does X allocate_page_id (λ p c. X c × IsNewPage p c)
unfolding allocate_page_id
Does-page_id X stable = record {
  run = λ c h x. elim (Bool-cases (ltb (c.next_page_id + 1) (2 ^ 64))) [
    | inl y ↦
        let more = more_pages c (ground (arith, y)) h in
        rw y (
          more,
          λ a e.
              let same : c.next_page_id ≡ a = cc in
              let unused = rw same at (h.pages_below c.next_page_id (omega arith)) in
              (
                more,
                (
                  stable c (c.next_page_id + 1) x,
                  (unused, omega (arith, same), omega (arith, same, h.first_page)),
                ),
              ),
        )
    | inr n ↦ rw n (h, λ a e. cc)
  ];
}

pushed-IsConsistent :
    (r : RelationInfo) (p : PageId) (c : Catalog)
    → pages_of r.storage ≡ p ∷ []
    → IsConsistent c
    → total (name_at r.name) c.relations ≡ 0
    → total (id_at r.id) c.relations ≡ 0
    → r.id < c.next_relation_id
    → total (page_at p) c.relations ≡ 0
    → p < c.next_page_id
    → 0 < p
    → IsConsistent (push_relation r c)
unfolding push_relation total occurrences
pushed-IsConsistent r p c one h free new below unused small positive =
    let sum = λ (w : RelationInfo → ℕ). total-append w c.relations (r ∷ []) in
    record {
      ids = λ id. elim (Bool-cases (r.id == id)) [
        | inl y ↦
            let e : r.id ≡ id = ground (arith, y) in
            rw (sum (id_at id), y, (rw e at new)) (omega arith)
        | inr n ↦ rw (sum (id_at id), n) (omega (arith, h.ids id))
      ];
      ids_below = λ id le.
          let other : (r.id == id) ≡ false = ground (arith, le, below) in
          rw (sum (id_at id), other) (omega (arith, h.ids_below id le));
      names = λ name. elim (Bool-cases (text_eq r.name name)) [
        | inl y ↦
            let e = text_eq_sound r.name name y in
            rw (sum (name_at name), y, (rw e at free)) (omega arith)
        | inr n ↦ rw (sum (name_at name), n) (omega (arith, h.names name))
      ];
      pages = λ q. elim (Bool-cases (p == q)) [
        | inl y ↦
            let e : p ≡ q = ground (arith, y) in
            rw (sum (page_at q), one, y, (rw e at unused)) (omega arith)
        | inr n ↦ rw (sum (page_at q), one, n) (omega (arith, h.pages q))
      ];
      pages_below = λ q le.
          let other : (p == q) ≡ false = ground (arith, le, small) in
          rw (sum (page_at q), one, other) (omega (arith, h.pages_below q le));
      ids_fit = h.ids_fit;
      pages_fit = h.pages_fit;
      first_page = h.first_page;
      catalog_page =
          let other : (p == 0) ≡ false = ground (arith, positive) in
          rw (sum (page_at 0), one, other) (omega (arith, h.catalog_page));
    }

-- A relation that is new under its id, its name and its one page.
pub Does-push :
    (r : RelationInfo) (p : PageId)
    → pages_of r.storage ≡ p ∷ []
    → Does (λ c. (IsFree r.name c × IsNewId r.id c) × IsNewPage p c) (modify (push_relation r)) Done
unfolding push_relation
Does-push r p one = record {
  run = λ c h x.
      let ((free, (new, below)), (unused, small, positive)) = x in
      let done = pushed-IsConsistent r p c one h free new below unused small positive in
      (done, λ a e. (done, tt));
}
