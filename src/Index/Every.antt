-- ===== src/Index/Every.antt =====
-- crates/rdbms_index/src/lib.rs: what holds of every separator and entry stays so under an insertion.
use rdbms.Prelude.{
  ℕ, zero, suc, ◌/◌, true, false, Option, none, some, List, [], ◌∷◌, length, take, drop, All,
  All-take, All-drop, leb,
}
use rdbms.Core.{PageId}
use rdbms.Index.Format.{
  max_keys, IndexKey, IndexEntry, compare_entry, is_less, is_above, insert_leaf_entry,
}
use rdbms.Index.Forest.{
  Tree, leaf_at, node_at, Forest, last, more, Grown, one, two, keys_of, plug, plug_before, put,
  split_forest, cut_leaf, grown_leaf, cut_node, grown_node, ins, ins_in,
}

-- P holds of every separator and Q of every entry.
module _ (P : IndexKey → Type 0) (Q : IndexEntry → Type 0) where
  unfoldable mutual
    pub Every : Tree → Type 0
    Every (leaf_at id entries) = All Q entries
    Every (node_at id f) = EveryIn f

    pub EveryIn : Forest → Type 0
    EveryIn (last t) = Every t
    EveryIn (more t k f) = Every t × P k × EveryIn f

  abbrev pub EveryOf : Grown → Type 0
  EveryOf (one t) = Every t
  EveryOf (two a k b) = Every a × P k × Every b

  plug-Every : (g : Grown) → EveryOf g → EveryIn (plug g)
  unfolding plug Every
  plug-Every (one t) h = h
  plug-Every (two a s b) h = h

  plug_before-Every :
      (g : Grown) (k : IndexKey) (f : Forest)
      → EveryOf g
      → P k
      → EveryIn f
      → EveryIn (plug_before g k f)
  unfolding plug_before Every
  plug_before-Every (one t) k f h p r = (h, p, r)
  plug_before-Every (two a s b) k f h p r = (h.0, h.1, (h.2, p, r))

  pub put-Every :
      (key : IndexKey) (g : Grown) (f : Forest) → EveryOf g → EveryIn f → EveryIn (put key g f)
  unfolding put Every
  put-Every key g (last u) h k = plug-Every g h
  put-Every key g (more u s f) h (k, l, m) =
      let rest = put-Every key g f h m in
      elim (is_above key s)
        as (λ x. EveryIn (elim x [ true ↦ more u s (put key g f) | false ↦ plug_before g s f ])) [
          | true ↦ (k, l, rest)
          | false ↦ plug_before-Every g s f h l m
        ]

  pub insert_leaf_entry-All :
      (e : IndexEntry) (es : List IndexEntry) → Q e → All Q es → All Q (insert_leaf_entry e es)
  unfolding insert_leaf_entry
  insert_leaf_entry-All e [] q h = (q, tt)
  insert_leaf_entry-All e (x ∷ es) q h =
      let rest = insert_leaf_entry-All e es q h.1 in
      elim (is_less (compare_entry x e))
        as (λ y. All Q (elim y [ true ↦ x ∷ insert_leaf_entry e es | false ↦ e ∷ x ∷ es ])) [
          | true ↦ (h.0, rest)
          | false ↦ (q, h)
        ]

  module _ (of_entry : (e : IndexEntry) → Q e → P e.key) where
    cut_leaf-Every :
        (id n : PageId) (front back : List IndexEntry)
        → All Q front
        → All Q back
        → EveryOf (cut_leaf id n front back)
    unfolding cut_leaf Every
    cut_leaf-Every id n front [] h k = h
    cut_leaf-Every id n front (e ∷ back) h k = (h, of_entry e k.0, k)

    grown_leaf-Every :
        (id n : PageId) (es : List IndexEntry) → All Q es → EveryOf (grown_leaf id n es)
    unfolding grown_leaf Every
    grown_leaf-Every id n es h =
        elim (leb (length es) max_keys)
          as (λ x. EveryOf (elim x [
            | true ↦ one (leaf_at id es)
            | false ↦ cut_leaf id n (take (length es / 2) es) (drop (length es / 2) es)
          ])) [
            | true ↦ h
            | false ↦
                cut_leaf-Every id n _ _ (All-take Q (length es / 2) es h)
                  (All-drop Q (length es / 2) es h)
          ]

  abbrev pub EveryParts : Option (Forest × IndexKey × Forest) → Type 0
  EveryParts none = Unit
  EveryParts (some (a, s, b)) = EveryIn a × P s × EveryIn b

  pub split_forest-Every : (n : ℕ) (f : Forest) → EveryIn f → EveryParts (split_forest n f)
  unfolding split_forest Every
  split_forest-Every n (last t) h = tt
  split_forest-Every zero (more t k f) h = h
  split_forest-Every (suc n) (more t k f) h =
      let rest = split_forest-Every n f h.2 in
      elim (split_forest n f)
          as (λ x.
            EveryParts x
            → EveryParts (elim x [ none ↦ none | some (a, s, b) ↦ some (more t k a, s, b) ])) [
              | none ↦ λ _. tt
              | some (a, s, b) ↦ λ r. ((h.0, h.1, r.0), r.1, r.2)
            ]
        rest

  module _ (of_entry : (e : IndexEntry) → Q e → P e.key) where
    cut_node-Every :
        (id n : PageId) (f : Forest) (parts : Option (Forest × IndexKey × Forest))
        → EveryIn f
        → EveryParts parts
        → EveryOf (cut_node id n f parts)
    unfolding Every
    cut_node-Every id n f none h k = h
    cut_node-Every id n f (some (a, s, b)) h k = k

    grown_node-Every : (id n : PageId) (f : Forest) → EveryIn f → EveryOf (grown_node id n f)
    unfolding grown_node Every
    grown_node-Every id n f h =
        let parts = split_forest-Every (length (keys_of f) / 2) f h in
        elim (leb (length (keys_of f)) max_keys)
          as (λ x. EveryOf (elim x [
            | true ↦ one (node_at id f)
            | false ↦ cut_node id n f (split_forest (length (keys_of f) / 2) f)
          ])) [ true ↦ h | false ↦ cut_node-Every id n f _ h parts ]

    mutual
      unfolding ins Every

      pub ins-Every : (e : IndexEntry) (n : ℕ) (t : Tree) → Q e → Every t → EveryOf (ins e n t).0
      ins-Every e n (leaf_at id es) q h =
          grown_leaf-Every of_entry id n _ (insert_leaf_entry-All e es q h)
      ins-Every e n (node_at id f) q h =
          grown_node-Every id (ins_in e n f).1 _
            (put-Every e.key (ins_in e n f).0 f (ins_in-Every e n f q h) h)

      pub ins_in-Every :
          (e : IndexEntry) (n : ℕ) (f : Forest) → Q e → EveryIn f → EveryOf (ins_in e n f).0
      ins_in-Every e n (last t) q h = ins-Every e n t q h
      ins_in-Every e n (more t k f) q h =
          let left = ins-Every e n t q h.0 in
          let right = ins_in-Every e n f q h.2 in
          elim (is_above e.key k)
            as (λ x.
              EveryOf (elim x as (λ _. Grown × ℕ) [ true ↦ ins_in e n f | false ↦ ins e n t ]).0) [
                | true ↦ right
                | false ↦ left
              ]
