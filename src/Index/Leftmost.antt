-- ===== src/Index/Leftmost.antt =====
-- crates/rdbms_index/src/lib.rs: an insertion leaves a tree's root page and leftmost leaf where they are.
use rdbms.Prelude.{
  ℕ, zero, suc, ◌/◌, ◌≡◌, refl, ◌∙◌, Bool-cases, true, false, inl, inr, Option, none, some, List,
  [], ◌∷◌, length, take, drop, leb,
}
use rdbms.Core.{PageId}
use rdbms.Index.Format.{max_keys, IndexKey, IndexEntry, is_above}
use rdbms.Index.Forest.{
  Tree, leaf_at, node_at, Forest, last, more, Grown, one, two, root, keys_of, leftmost, leftmost_in,
  plug, plug_before, put, split_forest, cut_leaf, grown_leaf, cut_node, grown_node, ins, ins_in,
  put-above, put-below, ins_in-above, ins_in-below,
}

abbrev pub left_of : Grown → Tree
left_of (one t) = t
left_of (two a k b) = a

abbrev StaysAt : PageId → PageId → Grown → Type 0
StaysAt id least g = (root (left_of g) ≡ id) × (leftmost (left_of g) ≡ least)

cut_leaf-StaysAt :
    (id n : PageId) (front back : List IndexEntry) → StaysAt id id (cut_leaf id n front back)
unfolding cut_leaf leftmost
cut_leaf-StaysAt id n front [] = (refl, refl)
cut_leaf-StaysAt id n front (e ∷ back) = (refl, refl)

grown_leaf-StaysAt : (id n : PageId) (es : List IndexEntry) → StaysAt id id (grown_leaf id n es)
unfolding grown_leaf leftmost
grown_leaf-StaysAt id n es =
    elim (leb (length es) max_keys)
      as (λ x. StaysAt id id (elim x [
        | true ↦ one (leaf_at id es)
        | false ↦ cut_leaf id n (take (length es / 2) es) (drop (length es / 2) es)
      ])) [ true ↦ (refl, refl) | false ↦ cut_leaf-StaysAt id n _ _ ]

abbrev pub LeftmostOf : PageId → Option (Forest × IndexKey × Forest) → Type 0
LeftmostOf least none = Unit
LeftmostOf least (some (a, s, b)) = leftmost_in a ≡ least

pub split_forest-LeftmostOf : (n : ℕ) (f : Forest) → LeftmostOf (leftmost_in f) (split_forest n f)
unfolding split_forest leftmost
split_forest-LeftmostOf n (last t) = tt
split_forest-LeftmostOf zero (more t k f) = refl
split_forest-LeftmostOf (suc n) (more t k f) =
    elim (split_forest n f)
      as (λ x.
        LeftmostOf (leftmost t)
          (elim x [ none ↦ none | some (a, s, b) ↦ some (more t k a, s, b) ])) [
            | none ↦ tt
            | some (a, s, b) ↦ refl
          ]

cut_node-StaysAt :
    (id n : PageId) (f : Forest) (parts : Option (Forest × IndexKey × Forest))
    → LeftmostOf (leftmost_in f) parts
    → StaysAt id (leftmost_in f) (cut_node id n f parts)
unfolding leftmost
cut_node-StaysAt id n f none h = (refl, refl)
cut_node-StaysAt id n f (some (a, s, b)) h = (refl, h)

grown_node-StaysAt : (id n : PageId) (f : Forest) → StaysAt id (leftmost_in f) (grown_node id n f)
unfolding grown_node leftmost
grown_node-StaysAt id n f =
    let parts = split_forest-LeftmostOf (length (keys_of f) / 2) f in
    elim (leb (length (keys_of f)) max_keys)
      as (λ x. StaysAt id (leftmost_in f) (elim x [
        | true ↦ one (node_at id f)
        | false ↦ cut_node id n f (split_forest (length (keys_of f) / 2) f)
      ])) [ true ↦ (refl, refl) | false ↦ cut_node-StaysAt id n f _ parts ]

leftmost-plug : (g : Grown) → leftmost_in (plug g) ≡ leftmost (left_of g)
unfolding plug leftmost
leftmost-plug (one t) = refl
leftmost-plug (two a s b) = refl

leftmost-plug_before :
    (g : Grown) (k : IndexKey) (f : Forest) → leftmost_in (plug_before g k f) ≡ leftmost (left_of g)
unfolding plug_before leftmost
leftmost-plug_before (one t) k f = refl
leftmost-plug_before (two a s b) k f = refl

leftmost-put_last :
    (e : IndexEntry) (g : Grown) (t : Tree)
    → leftmost_in (put e.key g (last t)) ≡ leftmost (left_of g)
unfolding put
leftmost-put_last e g t = leftmost-plug g

mutual
  unfolding ins leftmost

  pub ins-StaysAt :
      (e : IndexEntry) (n : ℕ) (t : Tree) → StaysAt (root t) (leftmost t) (ins e n t).0
  ins-StaysAt e n (leaf_at id es) = grown_leaf-StaysAt id n _
  ins-StaysAt e n (node_at id f) =
      let (at_root, least) =
        grown_node-StaysAt id (ins_in e n f).1 (put e.key (ins_in e n f).0 f) in
      (at_root, least ∙ leftmost-put e n f)

  pub leftmost-put :
      (e : IndexEntry) (n : ℕ) (f : Forest)
      → leftmost_in (put e.key (ins_in e n f).0 f) ≡ leftmost_in f
  leftmost-put e n (last t) = leftmost-put_last e (ins e n t).0 t ∙ (ins-StaysAt e n t).1
  leftmost-put e n (more t k f) =
      let here = (ins-StaysAt e n t).1 in
      elim (Bool-cases (is_above e.key k)) [
        | inl up ↦ rw (ins_in-above e t k f n up, put-above e t k f (ins_in e n f).0 up) refl
        | inr down ↦
            rw (ins_in-below e t k f n down, put-below e t k f (ins e n t).0 down)
              (leftmost-plug_before (ins e n t).0 k f ∙ here)
      ]
