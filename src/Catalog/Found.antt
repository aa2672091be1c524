-- ===== src/Catalog/Found.antt =====
-- What is found in a catalog after a table has been created.
use rdbms.Prelude.{
  ◌≡◌, refl, arith, Bool, true, false, Option, none, some, List, [], ◌∷◌, ◌++◌, ◌==◌, if◌then◌else◌,
  inl, inr, Bool-cases,
}
use rdbms.Core.{PageId, RelationId, ok}
use rdbms.Catalog.Format.{Text, text_eq, table, heap, ColumnDef, RelationInfo, Catalog}
use rdbms.Catalog.Meta.{find, is_some, relation_by_id, relation_by_name}
use rdbms.Catalog.Change.{
  allocate_relation_id, allocate_page_id, push_relation, create_table_metadata,
}
use rdbms.Catalog.Consistent.{total, id_at, IsConsistent, text_eq_sound}

abbrev pub new_table : Text → List ColumnDef → Catalog → RelationInfo
new_table name columns c = record {
  id = c.next_relation_id;
  name = name;
  kind = table;
  storage = heap (record { pages = c.next_page_id ∷ [] });
  columns = columns;
}

create_table_inv :
    (name : Text) (columns : List ColumnDef) (c : Catalog) (made : RelationId × PageId)
    → (create_table_metadata name columns c).0 ≡ ok made
    → (is_some (relation_by_name name c) ≡ false)
      × (made ≡ (c.next_relation_id, c.next_page_id))
      × ((create_table_metadata name columns c).1.relations
          ≡ c.relations ++ (new_table name columns c ∷ []))
unfolding create_table_metadata allocate_relation_id allocate_page_id push_relation
create_table_inv name columns c made e = ground (arith, e)

or_new : Option RelationInfo → Bool → RelationInfo → Option RelationInfo
or_new (some r) b new = some r
or_new none b new = if b then some new else none

find-append :
    (test : RelationInfo → Bool) (rs : List RelationInfo) (new : RelationInfo)
    → find test (rs ++ (new ∷ [])) ≡ or_new (find test rs) (test new) new
unfolding find or_new
find-append test [] new = refl
find-append test (r ∷ rs) new = elim (Bool-cases (test r)) [
  | inl y ↦ rw y refl
  | inr n ↦ rw n (find-append test rs new)
]

find_id_lem :
    (id : RelationId) (rs : List RelationInfo)
    → total (id_at id) rs ≡ 0
    → find (λ r. r.id == id) rs ≡ none
unfolding find total
find_id_lem id [] h = refl
find_id_lem id (r ∷ rs) h = elim (Bool-cases (r.id == id)) [
  | inl y ↦ ground (arith, y, h)
  | inr n ↦ rw n (find_id_lem id rs (omega (arith, rw n at h)))
]

none_lem : (o : Option RelationInfo) → is_some o ≡ false → o ≡ none
none_lem none h = refl
none_lem (some r) h = cc

-- The search after an append: as before where the new relation does not match.
found_lem :
    (o : Option RelationInfo) (b : Bool) (new : RelationInfo)
    → (b ≡ true → o ≡ none)
    → or_new o b new ≡ (if b then some new else o)
unfolding or_new
found_lem o true new h = rw (h refl) refl
found_lem none false new h = refl
found_lem (some r) false new h = refl

-- In a consistent catalog, a table that is created gets the next id and the next page, it is found
-- under its name and under its id, and every other name and id is found, or not, as before.
pub relation_by_name-create_table :
    (name : Text) (columns : List ColumnDef) (c : Catalog) (made : RelationId × PageId)
    → IsConsistent c
    → (create_table_metadata name columns c).0 ≡ ok made
    → (made ≡ (c.next_relation_id, c.next_page_id))
      × ((other : Text)
          → relation_by_name other (create_table_metadata name columns c).1 ≡ (
              if text_eq name other
              then some (new_table name columns c)
              else relation_by_name other c))
      × ((other : RelationId)
          → relation_by_id other (create_table_metadata name columns c).1
            ≡ (if made.0 == other then some (new_table name columns c) else relation_by_id other c))
unfolding relation_by_name relation_by_id
relation_by_name-create_table name columns c made h e =
    let (free, same, relations) = create_table_inv name columns c made e in
    let new = new_table name columns c in
    (
      same,
      (λ other.
          rw (relations, find-append (λ r. text_eq r.name other) c.relations new)
            (found_lem (relation_by_name other c) (text_eq name other) new
              (λ y. rw (text_eq_sound name other y) at (none_lem (relation_by_name name c) free)))),
      (λ other.
          rw (relations, same, find-append (λ r. r.id == other) c.relations new)
            (found_lem (relation_by_id other c) (c.next_relation_id == other) new
              (λ y. find_id_lem other c.relations (h.ids_below other (ground (arith, y)))))),
    )
