-- ===== src/Index/Halves.antt =====
-- crates/rdbms_index/src/lib.rs: an insertion takes only fresh pages for the nodes that it
-- adds, when it splits a node too.
use rdbms.Prelude.{
  ℕ, zero, suc, ◌+◌, ◌/◌, ◌<◌, ◌⊎◌, refl, arith, Bool-cases, true, false, inl, inr, Option, none,
  some, length, leb,
}
use rdbms.Core.{PageId}
use rdbms.Index.Format.{max_keys, IndexKey, IndexEntry, is_above, insert_leaf_entry}
use rdbms.Index.Forest.{
  Tree, leaf_at, node_at, Forest, last, more, Grown, one, keys_of, put, split_forest, cut_node,
  grown_node, taken, ins, ins_in, put-above, put-below, ins_in-above, ins_in-below,
}
use rdbms.Index.Fresh.{
  In, InForest, IsDistinct, AreDistinct, IsFresh, Freshens, FreshensIn, grown_leaf-Freshens,
  plug-FreshensIn, plug_before-FreshensIn, more-FreshensIn,
}

-- The two halves of a split node share out its children.
pub record Parts (f a b : Forest) : Type 0 where
  pub left : (i : PageId) → InForest i a → InForest i f
  pub right : (i : PageId) → InForest i b → InForest i f
  pub distinct_left : AreDistinct a
  pub distinct_right : AreDistinct b
  pub apart : (i : PageId) → InForest i a → InForest i b → ⊥

abbrev pub ArePartsOf : Forest → Option (Forest × IndexKey × Forest) → Type 0
ArePartsOf f none = Unit
ArePartsOf f (some (a, s, b)) = Parts f a b

more-ArePartsOf :
    (t : Tree) (k : IndexKey) (f : Forest) (parts : Option (Forest × IndexKey × Forest))
    → AreDistinct (more t k f)
    → ArePartsOf f parts
    → ArePartsOf
        (more t k f)
        (elim parts [ none ↦ none | some (a, s, b) ↦ some (more t k a, s, b) ])
unfolding In IsDistinct
more-ArePartsOf t k f none d p = tt
more-ArePartsOf t k f (some (a, s, b)) (dt, df, away) p = record {
  left = λ i h. elim h [ inl q ↦ inl q | inr q ↦ inr (p.left i q) ];
  right = λ i h. inr (p.right i h);
  distinct_left = (dt, p.distinct_left, λ i h q. away i h (p.left i q));
  distinct_right = p.distinct_right;
  apart = λ i h q. elim h [ inl r ↦ away i r (p.right i q) | inr r ↦ p.apart i r q ];
}

pub split_forest-ArePartsOf : (n : ℕ) (f : Forest) → AreDistinct f → ArePartsOf f (split_forest n f)
unfolding split_forest In IsDistinct
split_forest-ArePartsOf n (last t) d = tt
split_forest-ArePartsOf zero (more t k f) (dt, df, away) = record {
  left = λ i h. inl h;
  right = λ i h. inr h;
  distinct_left = dt;
  distinct_right = df;
  apart = away;
}
split_forest-ArePartsOf (suc n) (more t k f) d =
    more-ArePartsOf t k f (split_forest n f) d (split_forest-ArePartsOf n f d.1)

-- A node whose children were changed, the page m for its right half.
module _ (n m id : ℕ) (f f' : Forest) (h : FreshensIn n m f f')
    (bound : (i : PageId) → InForest i f → i < n) (below : id < n) (own : InForest id f → ⊥) where
  -- The node's own page is none of its children's, the new ones included.
  own_apart : InForest id f' → ⊥
  own_apart p = elim (h.ids id p) [ inl old ↦ own old | inr new ↦ omega (arith, new.0, below) ]

  new_below : (i : PageId) → InForest i f' → i < m
  new_below i p = elim (h.ids i p) [
    | inl old ↦ omega (arith, bound i old, h.grows)
    | inr new ↦ new.1
  ]

  kept_ids : (i : PageId) → InForest i f' → In i (node_at id f) ⊎ IsFresh n (m + 1) i
  unfolding In
  kept_ids i p = elim (h.ids i p) [
    | inl old ↦ inl (inr old)
    | inr new ↦ inr (omega (arith, new.0, new.1))
  ]

  whole_node : Freshens n m (node_at id f) (one (node_at id f'))
  unfolding In IsDistinct
  whole_node = record {
    grows = h.grows;
    ids = λ i p. elim p [
      | inl q ↦ inl (inl q)
      | inr q ↦ elim (h.ids i q) [ inl old ↦ inl (inr old) | inr new ↦ inr new ]
    ];
    distinct = (own_apart, h.distinct);
  }

  cut_node-Freshens :
      (parts : Option (Forest × IndexKey × Forest))
      → ArePartsOf f' parts
      → Freshens n (taken (cut_node id m f' parts) m) (node_at id f) (cut_node id m f' parts)
  unfolding In IsDistinct
  cut_node-Freshens none p = whole_node
  cut_node-Freshens (some (a, s, b)) p = record {
    grows = omega (arith, h.grows);
    ids = λ i q. elim q [
      | inl (inl r) ↦ inl (inl r)
      | inl (inr r) ↦ kept_ids i (p.left i r)
      | inr (inl r) ↦ inr (omega (arith, r, h.grows))
      | inr (inr r) ↦ kept_ids i (p.right i r)
    ];
    distinct = (
      (λ r. own_apart (p.left id r), p.distinct_left),
      (λ r. omega (arith, new_below m (p.right m r)), p.distinct_right),
      λ i q r. elim q [
        | inl q ↦ elim r [
          | inl r ↦ omega (arith, q, r, below, h.grows)
          | inr r ↦ own_apart (p.right id (rw q at r))
        ]
        | inr q ↦ elim r [
          | inl r ↦ omega (arith, new_below i (p.left i q), r)
          | inr r ↦ p.apart i q r
        ]
      ],
    );
  }

  grown_node-Freshens :
      Freshens n (taken (grown_node id m f') m) (node_at id f) (grown_node id m f')
  unfolding grown_node
  grown_node-Freshens =
      let parts =
        cut_node-Freshens (split_forest (length (keys_of f') / 2) f')
          (split_forest-ArePartsOf (length (keys_of f') / 2) f' h.distinct) in
      elim (leb (length (keys_of f')) max_keys)
        as (λ x.
          let g = elim x as (λ _. Grown) [
            | true ↦ one (node_at id f')
            | false ↦ cut_node id m f' (split_forest (length (keys_of f') / 2) f')
          ] in
          Freshens n (taken g m) (node_at id f) g) [ true ↦ whole_node | false ↦ parts ]

put_last-FreshensIn :
    (e : IndexEntry) (n m : ℕ) (t : Tree) (g : Grown)
    → Freshens n m t g
    → FreshensIn n m (last t) (put e.key g (last t))
unfolding put
put_last-FreshensIn e n m t g h = plug-FreshensIn n m t g h

mutual
  unfolding ins In IsDistinct

  pub ins-Freshens :
      (e : IndexEntry) (n : ℕ) (t : Tree)
      → IsDistinct t
      → ((i : PageId) → In i t → i < n)
      → Freshens n (ins e n t).1 t (ins e n t).0
  ins-Freshens e n (leaf_at id es) d bound =
      grown_leaf-Freshens id n (insert_leaf_entry e es) es (bound id refl)
  ins-Freshens e n (node_at id f) d bound =
      grown_node-Freshens n (ins_in e n f).1 id f _
        (put-FreshensIn e n f d.1 (λ i h. bound i (inr h))) (λ i h. bound i (inr h))
        (bound id (inl refl)) d.0

  pub put-FreshensIn :
      (e : IndexEntry) (n : ℕ) (f : Forest)
      → AreDistinct f
      → ((i : PageId) → InForest i f → i < n)
      → FreshensIn n (ins_in e n f).1 f (put e.key (ins_in e n f).0 f)
  put-FreshensIn e n (last t) d bound =
      put_last-FreshensIn e n (ins e n t).1 t (ins e n t).0 (ins-Freshens e n t d bound)
  put-FreshensIn e n (more t k f) (dt, df, away) bound =
      let here = ins-Freshens e n t dt (λ i h. bound i (inl h)) in
      let there = put-FreshensIn e n f df (λ i h. bound i (inr h)) in
      elim (Bool-cases (is_above e.key k)) [
        | inl up ↦
            rw (ins_in-above e t k f n up, put-above e t k f (ins_in e n f).0 up)
              (more-FreshensIn n _ t k f bound away _ there dt)
        | inr down ↦
            rw (ins_in-below e t k f n down, put-below e t k f (ins e n t).0 down)
              (plug_before-FreshensIn n _ t k f bound away (ins e n t).0 here df)
      ]
