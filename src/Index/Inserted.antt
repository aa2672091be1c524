-- ===== src/Index/Inserted.antt =====
-- crates/rdbms_index/src/lib.rs: an insertion puts the new entry among the old ones, and leaves the
-- leftmost leaf where it is.
use mathlib.Core.List.{append_assoc, append-nil}
use rdbms.Prelude.{
  ℕ, zero, suc, ◌/◌, ◌≡◌, refl, sym, ap, ◌∙◌, Bool-cases, true, false, inl, inr, Option, none, some,
  List, [], ◌∷◌, ◌++◌, length, take, drop, take-append-drop, leb,
}
use rdbms.Core.{PageId}
use rdbms.Index.Format.{
  max_keys, IndexKey, IndexEntry, compare_entry, is_less, is_above, insert_leaf_entry,
}
use rdbms.Index.Forest.{
  Tree, leaf_at, node_at, Forest, last, more, Grown, one, two, keys_of, entries_of, entries_in,
  plug, plug_before, put, split_forest, cut_leaf, grown_leaf, cut_node, grown_node, ins, ins_in,
  put-above, put-below, ins_in-above, ins_in-below, insert_leaf_entry-after,
  insert_leaf_entry-before,
}

-- The list with one element more, somewhere.
pub record Inserts {A : Type 0} (a : A) (old new : List A) : Type 0 where
  pub front : List A
  pub back : List A
  pub before : old ≡ front ++ back
  pub after : new ≡ front ++ a ∷ back

module _ {A : Type 0} (a : A) where
  Inserts-head : (xs : List A) → Inserts a xs (a ∷ xs)
  Inserts-head xs = record { front = []; back = xs; before = refl; after = refl }

  Inserts-right : (c old new : List A) → Inserts a old new → Inserts a (c ++ old) (c ++ new)
  Inserts-right c old new i = record {
    front = c ++ i.front;
    back = i.back;
    before = rw (append_assoc c i.front i.back) (ap (λ l. c ++ l) i.before);
    after = rw (append_assoc c i.front (a ∷ i.back)) (ap (λ l. c ++ l) i.after);
  }

  Inserts-left : (c old new : List A) → Inserts a old new → Inserts a (old ++ c) (new ++ c)
  Inserts-left c old new i = record {
    front = i.front;
    back = i.back ++ c;
    before = ap (λ l. l ++ c) i.before ∙ append_assoc i.front i.back c;
    after = ap (λ l. l ++ c) i.after ∙ append_assoc i.front (a ∷ i.back) c;
  }

  Inserts-to : (old new new' : List A) → new ≡ new' → Inserts a old new → Inserts a old new'
  Inserts-to old new new' h i = rw h at i

insert_leaf_entry-Inserts :
    (e : IndexEntry) (es : List IndexEntry) → Inserts e es (insert_leaf_entry e es)
unfolding insert_leaf_entry
insert_leaf_entry-Inserts e [] = Inserts-head e []
insert_leaf_entry-Inserts e (x ∷ es) =
    let rest = insert_leaf_entry-Inserts e es in
    elim (Bool-cases (is_less (compare_entry x e))) [
      | inl less ↦ rw (insert_leaf_entry-after e x es less) (Inserts-right e (x ∷ []) es _ rest)
      | inr up ↦ rw (insert_leaf_entry-before e x es up) (Inserts-head e (x ∷ es))
    ]

abbrev pub entries_grown : Grown → List IndexEntry
entries_grown (one t) = entries_of t
entries_grown (two a k b) = entries_of a ++ entries_of b

entries-cut_leaf :
    (id n : PageId) (front back : List IndexEntry)
    → entries_grown (cut_leaf id n front back) ≡ front ++ back
unfolding cut_leaf entries_of
entries-cut_leaf id n front [] = sym (append-nil front)
entries-cut_leaf id n front (e ∷ back) = refl

entries-grown_leaf :
    (id n : PageId) (es : List IndexEntry) → entries_grown (grown_leaf id n es) ≡ es
unfolding grown_leaf entries_of
entries-grown_leaf id n es =
    elim (leb (length es) max_keys)
      as (λ x.
        entries_grown (elim x [
          | true ↦ one (leaf_at id es)
          | false ↦ cut_leaf id n (take (length es / 2) es) (drop (length es / 2) es)
        ])
        ≡ es) [
          | true ↦ refl
          | false ↦ entries-cut_leaf id n _ _ ∙ take-append-drop (length es / 2) es
        ]

entries-plug : (g : Grown) → entries_in (plug g) ≡ entries_grown g
unfolding plug entries_of
entries-plug (one t) = refl
entries-plug (two a k b) = refl

entries-plug_before :
    (g : Grown) (k : IndexKey) (f : Forest)
    → entries_in (plug_before g k f) ≡ entries_grown g ++ entries_in f
unfolding plug_before entries_of
entries-plug_before (one t) k f = refl
entries-plug_before (two a s b) k f =
    sym (append_assoc (entries_of a) (entries_of b) (entries_in f))

abbrev Joins : Forest → Option (Forest × IndexKey × Forest) → Type 0
Joins f none = Unit
Joins f (some (a, s, b)) = entries_in a ++ entries_in b ≡ entries_in f

split_forest-Joins : (n : ℕ) (f : Forest) → Joins f (split_forest n f)
unfolding split_forest entries_of
split_forest-Joins n (last t) = tt
split_forest-Joins zero (more t k f) = refl
split_forest-Joins (suc n) (more t k f) =
    let rest = split_forest-Joins n f in
    elim (split_forest n f)
        as (λ x.
          Joins f x
          → Joins (more t k f)
              (elim x [ none ↦ none | some (a, s, b) ↦ some (more t k a, s, b) ])) [
                | none ↦ λ _. tt
                | some (a, s, b) ↦ λ r.
                    append_assoc (entries_of t) (entries_in a) (entries_in b)
                    ∙ ap (λ l. entries_of t ++ l) r
              ]
      rest

entries-cut_node :
    (id n : PageId) (f : Forest) (parts : Option (Forest × IndexKey × Forest))
    → Joins f parts
    → entries_grown (cut_node id n f parts) ≡ entries_in f
unfolding entries_of
entries-cut_node id n f none h = refl
entries-cut_node id n f (some (a, s, b)) h = h

entries-grown_node : (id n : PageId) (f : Forest) → entries_grown (grown_node id n f) ≡ entries_in f
unfolding grown_node entries_of
entries-grown_node id n f =
    let parts = split_forest-Joins (length (keys_of f) / 2) f in
    elim (leb (length (keys_of f)) max_keys)
      as (λ x.
        entries_grown (elim x [
          | true ↦ one (node_at id f)
          | false ↦ cut_node id n f (split_forest (length (keys_of f) / 2) f)
        ])
        ≡ entries_in f) [ true ↦ refl | false ↦ entries-cut_node id n f _ parts ]

put_last-Inserts :
    (e : IndexEntry) (g : Grown) (t : Tree)
    → Inserts e (entries_of t) (entries_grown g)
    → Inserts e (entries_of t) (entries_in (put e.key g (last t)))
unfolding put
put_last-Inserts e g t i = rw (entries-plug g) i

mutual
  unfolding ins entries_of

  pub ins-Inserts :
      (e : IndexEntry) (n : ℕ) (t : Tree) → Inserts e (entries_of t) (entries_grown (ins e n t).0)
  ins-Inserts e n (leaf_at id es) =
      Inserts-to e es _ _ (sym (entries-grown_leaf id n (insert_leaf_entry e es)))
        (insert_leaf_entry-Inserts e es)
  ins-Inserts e n (node_at id f) =
      Inserts-to e _ _ _ (sym (entries-grown_node id (ins_in e n f).1 _)) (put-Inserts e n f)

  put-Inserts :
      (e : IndexEntry) (n : ℕ) (f : Forest)
      → Inserts e (entries_in f) (entries_in (put e.key (ins_in e n f).0 f))
  put-Inserts e n (last t) = put_last-Inserts e (ins e n t).0 t (ins-Inserts e n t)
  put-Inserts e n (more t k f) =
      let here = ins-Inserts e n t in
      let there = put-Inserts e n f in
      elim (Bool-cases (is_above e.key k)) [
        | inl up ↦
            rw (ins_in-above e t k f n up, put-above e t k f (ins_in e n f).0 up)
              (Inserts-right e (entries_of t) _ _ there)
        | inr down ↦
            rw (ins_in-below e t k f n down, put-below e t k f (ins e n t).0 down)
              (Inserts-to e _ _ _ (sym (entries-plug_before (ins e n t).0 k f))
                (Inserts-left e (entries_in f) _ _ here))
      ]
