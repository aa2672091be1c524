-- ===== src/Index/Fresh.antt =====
-- crates/rdbms_index/src/lib.rs: the pages of a tree are different ones; those of a child
-- that has changed are among the old and the fresh ones.
use rdbms.Prelude.{
  ℕ, ◌/◌, ◌≤◌, ◌<◌, ◌≡◌, ◌⊎◌, refl, arith, true, false, inl, inr, List, [], ◌∷◌, length, take, drop,
  leb,
}
use rdbms.Core.{PageId}
use rdbms.Index.Format.{max_keys, IndexKey, IndexEntry}
use rdbms.Index.Forest.{
  Tree, leaf_at, node_at, Forest, last, more, Grown, one, two, root, plug, plug_before, cut_leaf,
  grown_leaf, taken,
}

-- i is the page of a node.
unfoldable mutual
  pub In : PageId → Tree → Type 0
  In i (leaf_at id entries) = i ≡ id
  In i (node_at id f) = (i ≡ id) ⊎ InForest i f

  pub InForest : PageId → Forest → Type 0
  InForest i (last t) = In i t
  InForest i (more t k f) = In i t ⊎ InForest i f

pub root_In : (t : Tree) → In (root t) t
unfolding In
root_In (leaf_at id es) = refl
root_In (node_at id f) = inl refl

abbrev pub InGrown : PageId → Grown → Type 0
InGrown i (one t) = In i t
InGrown i (two a k b) = In i a ⊎ In i b

-- No two nodes share a page.
unfoldable mutual
  pub IsDistinct : Tree → Type 0
  IsDistinct (leaf_at id entries) = Unit
  IsDistinct (node_at id f) = (InForest id f → ⊥) × AreDistinct f

  pub AreDistinct : Forest → Type 0
  AreDistinct (last t) = IsDistinct t
  AreDistinct (more t k f) =
      IsDistinct t × AreDistinct f × ((i : PageId) → In i t → InForest i f → ⊥)

abbrev pub GrownIsDistinct : Grown → Type 0
GrownIsDistinct (one t) = IsDistinct t
GrownIsDistinct (two a k b) = IsDistinct a × IsDistinct b × ((i : PageId) → In i a → In i b → ⊥)

-- From n up to m.
abbrev pub IsFresh : ℕ → ℕ → PageId → Type 0
IsFresh n m i = (n ≤ i) × (i < m)

-- The result of an insertion: the old pages and fresh ones, all different.
pub record Freshens (n m : ℕ) (t : Tree) (g : Grown) : Type 0 where
  pub grows : n ≤ m
  pub ids : (i : PageId) → InGrown i g → In i t ⊎ IsFresh n m i
  pub distinct : GrownIsDistinct g

pub record FreshensIn (n m : ℕ) (f f' : Forest) : Type 0 where
  pub grows : n ≤ m
  pub ids : (i : PageId) → InForest i f' → InForest i f ⊎ IsFresh n m i
  pub distinct : AreDistinct f'

cut_leaf-Freshens :
    (id n : PageId) (front back es : List IndexEntry)
    → id < n
    → Freshens n (taken (cut_leaf id n front back) n) (leaf_at id es) (cut_leaf id n front back)
unfolding cut_leaf In IsDistinct
cut_leaf-Freshens id n front [] es lt = record {
  grows = omega arith;
  ids = λ i h. inl h;
  distinct = tt;
}
cut_leaf-Freshens id n front (e ∷ back) es lt = record {
  grows = omega arith;
  ids = λ i h. elim h [ inl p ↦ inl p | inr p ↦ inr (omega (arith, p)) ];
  distinct = (tt, tt, λ i p q. omega (arith, p, q, lt));
}

kept_leaf :
    (id n : PageId) (es old : List IndexEntry) → Freshens n n (leaf_at id old) (one (leaf_at id es))
unfolding In IsDistinct
kept_leaf id n es old = record { grows = omega arith; ids = λ i h. inl h; distinct = tt }

pub grown_leaf-Freshens :
    (id n : PageId) (es old : List IndexEntry)
    → id < n
    → Freshens n (taken (grown_leaf id n es) n) (leaf_at id old) (grown_leaf id n es)
unfolding grown_leaf
grown_leaf-Freshens id n es old lt =
    elim (leb (length es) max_keys)
      as (λ x.
        let g = elim x as (λ _. Grown) [
          | true ↦ one (leaf_at id es)
          | false ↦ cut_leaf id n (take (length es / 2) es) (drop (length es / 2) es)
        ] in
        Freshens n (taken g n) (leaf_at id old) g) [
          | true ↦ kept_leaf id n es old
          | false ↦ cut_leaf-Freshens id n _ _ old lt
        ]

pub plug-FreshensIn :
    (n m : ℕ) (t : Tree) (g : Grown) → Freshens n m t g → FreshensIn n m (last t) (plug g)
unfolding plug In IsDistinct
plug-FreshensIn n m t (one u) h = record { grows = h.grows; ids = h.ids; distinct = h.distinct }
plug-FreshensIn n m t (two a s b) h = record { grows = h.grows; ids = h.ids; distinct = h.distinct }

module _ (n m : ℕ) (t : Tree) (k : IndexKey) (f : Forest)
    (bound : (i : PageId) → InForest i (more t k f) → i < n)
    (apart : (i : PageId) → In i t → InForest i f → ⊥) where
  -- The fresh pages of the child are not among those of the other children.
  fresh_apart : (g : Grown) → Freshens n m t g → (i : PageId) → InGrown i g → InForest i f → ⊥
  unfolding In
  fresh_apart g h i p q = elim (h.ids i p) [
    | inl old ↦ apart i old q
    | inr new ↦ absurd (omega (arith, new.0, bound i (inr q)))
  ]

  pub plug_before-FreshensIn :
      (g : Grown)
      → Freshens n m t g
      → AreDistinct f
      → FreshensIn n m (more t k f) (plug_before g k f)
  unfolding plug_before In IsDistinct
  plug_before-FreshensIn (one u) h d = record {
    grows = h.grows;
    ids = λ i p. elim p [
      | inl q ↦ elim (h.ids i q) [ inl old ↦ inl (inl old) | inr new ↦ inr new ]
      | inr q ↦ inl (inr q)
    ];
    distinct = (h.distinct, d, fresh_apart (one u) h);
  }
  plug_before-FreshensIn (two a s b) h d = record {
    grows = h.grows;
    ids = λ i p. elim p [
      | inl q ↦ elim (h.ids i (inl q)) [ inl old ↦ inl (inl old) | inr new ↦ inr new ]
      | inr (inl q) ↦ elim (h.ids i (inr q)) [ inl old ↦ inl (inl old) | inr new ↦ inr new ]
      | inr (inr q) ↦ inl (inr q)
    ];
    distinct = (
      h.distinct.0,
      (h.distinct.1, d, λ i p. fresh_apart (two a s b) h i (inr p)),
      λ i p q. elim q [
        | inl r ↦ h.distinct.2 i p r
        | inr r ↦ fresh_apart (two a s b) h i (inl p) r
      ],
    );
  }

  pub more-FreshensIn :
      (f' : Forest) → FreshensIn n m f f' → IsDistinct t → FreshensIn n m (more t k f) (more t k f')
  unfolding In IsDistinct
  more-FreshensIn f' h d = record {
    grows = h.grows;
    ids = λ i p. elim p [
      | inl q ↦ inl (inl q)
      | inr q ↦ elim (h.ids i q) [ inl old ↦ inl (inr old) | inr new ↦ inr new ]
    ];
    distinct = (
      d,
      h.distinct,
      λ i p q. elim (h.ids i q) [
        | inl old ↦ apart i p old
        | inr new ↦ absurd (omega (arith, new.0, bound i (inl p)))
      ],
    );
  }
