-- ===== src/Index/Chosen.antt =====
-- crates/rdbms_index/src/lib.rs: the child that a key belongs to, and the lists of keys and children
-- that the code changes and cuts.
use rdbms.Prelude.{
  ℕ, zero, suc, ◌+◌, ◌<◌, ◌≡◌, refl, ap, ◌∙◌, arith, Bool-cases, true, false, inl, inr, none, some,
  [], ◌∷◌, length, take, drop,
}
use rdbms.Core.{ok}
use rdbms.Index.Format.{IndexKey, IndexEntry, is_above, child_index_for_key}
use rdbms.Index.Forest.{
  Tree, Forest, last, more, one, two, root, keys_of, children_of, plug, plug_before, put,
  split_forest, ins, ins_in, put-above, put-below, ins_in-above, ins_in-below,
}
use rdbms.Index.Tree.{at_index, insert_at}

unfoldable pub chosen : IndexKey → Forest → Tree
chosen key (last t) = t
chosen key (more t k f) = elim (is_above key k) [ true ↦ chosen key f | false ↦ t ]

module _ (e : IndexEntry) (t : Tree) (k : IndexKey) (f : Forest) where
  pub chosen-above : is_above e.key k ≡ true → chosen e.key (more t k f) ≡ chosen e.key f
  unfolding chosen
  chosen-above h = ap (λ b. elim b [ true ↦ chosen e.key f | false ↦ t ]) h

  pub chosen-below : is_above e.key k ≡ false → chosen e.key (more t k f) ≡ t
  unfolding chosen
  chosen-below h = ap (λ b. elim b [ true ↦ chosen e.key f | false ↦ t ]) h

  pub index-above :
      is_above e.key k ≡ true
      → child_index_for_key (keys_of (more t k f)) e.key
        ≡ suc (child_index_for_key (keys_of f) e.key)
  unfolding keys_of child_index_for_key
  index-above h =
      ap (λ b. elim b [ true ↦ child_index_for_key (keys_of f) e.key + 1 | false ↦ 0 ]) h
      ∙ omega arith

  pub index-below : is_above e.key k ≡ false → child_index_for_key (keys_of (more t k f)) e.key ≡ 0
  unfolding keys_of child_index_for_key
  index-below h =
      ap (λ b. elim b [ true ↦ child_index_for_key (keys_of f) e.key + 1 | false ↦ 0 ]) h

pub ins_in-chosen : (e : IndexEntry) (n : ℕ) (f : Forest) → ins_in e n f ≡ ins e n (chosen e.key f)
unfolding ins chosen
ins_in-chosen e n (last t) = refl
ins_in-chosen e n (more t k f) =
    let rest = ins_in-chosen e n f in
    elim (Bool-cases (is_above e.key k)) [
      | inl up ↦ rw (ins_in-above e t k f n up, chosen-above e t k f up) rest
      | inr down ↦ rw (ins_in-below e t k f n down, chosen-below e t k f down) refl
    ]

-- The code's index is that of the chosen child.
pub at_index-chosen :
    (e : IndexEntry) (f : Forest)
    → at_index (child_index_for_key (keys_of f) e.key) (children_of f) ≡ ok (root (chosen e.key f))
unfolding chosen keys_of children_of child_index_for_key at_index
at_index-chosen e (last t) = refl
at_index-chosen e (more t k f) =
    let rest = at_index-chosen e f in
    elim (Bool-cases (is_above e.key k)) [
      | inl up ↦ rw (index-above e t k f up, chosen-above e t k f up) rest
      | inr down ↦ rw (index-below e t k f down, chosen-below e t k f down) refl
    ]

pub length-children_of : (f : Forest) → length (children_of f) ≡ length (keys_of f) + 1
unfolding keys_of children_of
length-children_of (last t) = refl
length-children_of (more t k f) = omega (arith, length-children_of f)

-- A changed child that keeps its page leaves both lists as they are.
pub put_one-lists :
    (e : IndexEntry) (u : Tree) (f : Forest)
    → root u ≡ root (chosen e.key f)
    → (keys_of (put e.key (one u) f) ≡ keys_of f)
      × (children_of (put e.key (one u) f) ≡ children_of f)
unfolding chosen keys_of children_of put plug plug_before
put_one-lists e u (last t) h = (refl, ap (λ i. i ∷ []) h)
put_one-lists e u (more t k f) h = elim (Bool-cases (is_above e.key k)) [
  | inl up ↦
      let (ks, cs) = put_one-lists e u f (h ∙ ap root (chosen-above e t k f up)) in
      rw (put-above e t k f (one u) up) (ap (λ l. k ∷ l) ks, ap (λ l. root t ∷ l) cs)
  | inr down ↦
      rw (put-below e t k f (one u) down)
        (refl, ap (λ i. i ∷ children_of f) (h ∙ ap root (chosen-below e t k f down)))
]

-- A child that was split adds its separator and its right half, where the code inserts them.
pub put_two-lists :
    (e : IndexEntry) (a b : Tree) (s : IndexKey) (f : Forest)
    → root a ≡ root (chosen e.key f)
    → (keys_of (put e.key (two a s b) f)
        ≡ insert_at (child_index_for_key (keys_of f) e.key) s (keys_of f))
      × (children_of (put e.key (two a s b) f)
          ≡ insert_at (suc (child_index_for_key (keys_of f) e.key)) (root b) (children_of f))
unfolding chosen keys_of children_of put plug plug_before insert_at child_index_for_key
put_two-lists e a b s (last t) h = (refl, ap (λ i. i ∷ root b ∷ []) h)
put_two-lists e a b s (more t k f) h = elim (Bool-cases (is_above e.key k)) [
  | inl up ↦
      let (ks, cs) = put_two-lists e a b s f (h ∙ ap root (chosen-above e t k f up)) in
      rw (put-above e t k f (two a s b) up, index-above e t k f up)
        (ap (λ l. k ∷ l) ks, ap (λ l. root t ∷ l) cs)
  | inr down ↦
      rw (put-below e t k f (two a s b) down, index-below e t k f down)
        (refl, ap (λ i. i ∷ root b ∷ children_of f) (h ∙ ap root (chosen-below e t k f down)))
]

-- The halves of a node are the lists that the code cuts.
pub record Cuts (n : ℕ) (f a : Forest) (s : IndexKey) (b : Forest) : Type 0 where
  pub cut : split_forest n f ≡ some (a, s, b)
  pub middle : at_index n (keys_of f) ≡ ok s
  pub keys_left : keys_of a ≡ take n (keys_of f)
  pub keys_right : keys_of b ≡ drop (suc n) (keys_of f)
  pub children_left : children_of a ≡ take (suc n) (children_of f)
  pub children_right : children_of b ≡ drop (suc n) (children_of f)

pub split_forest-Cuts :
    (n : ℕ) (f : Forest)
    → n < length (keys_of f)
    → (a : Forest) × (s : IndexKey) × (b : Forest) × Cuts n f a s b
unfolding split_forest keys_of children_of take drop at_index
split_forest-Cuts n (last t) h = absurd (omega (arith, h))
split_forest-Cuts zero (more t k f) h = (
  last t,
  k,
  f,
  record {
    cut = refl;
    middle = refl;
    keys_left = refl;
    keys_right = refl;
    children_left = refl;
    children_right = refl;
  },
)
split_forest-Cuts (suc n) (more t k f) h =
    let (a, s, b, c) = split_forest-Cuts n f (omega (arith, h)) in
    (
      more t k a,
      s,
      b,
      record {
        cut = ap (λ x. elim x [ none ↦ none | some (a, s, b) ↦ some (more t k a, s, b) ]) c.cut;
        middle = c.middle;
        keys_left = ap (λ l. k ∷ l) c.keys_left;
        keys_right = c.keys_right;
        children_left = ap (λ l. root t ∷ l) c.children_left;
        children_right = c.children_right;
      },
    )
