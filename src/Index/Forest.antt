-- ===== src/Index/Forest.antt =====
-- crates/rdbms_index/src/lib.rs: what the pages of an index stand for, trees whose nodes carry their
-- page ids, and the insertion into such a tree.
use rdbms.Prelude.{
  ◌≡◌, ap, ℕ, zero, suc, ◌+◌, ◌/◌, true, false, Option, none, some, List, [], ◌∷◌, ◌++◌, length,
  take, drop, leb,
}
use rdbms.Core.{PageId}
use rdbms.Index.Format.{
  max_keys, IndexKey, IndexEntry, insert_leaf_entry, is_above, is_less, compare_entry,
}

-- The children of an internal node stand in a `Forest`, with the separators between them.
mutual
  pub data Tree : Type 0 where
    leaf_at : PageId → List IndexEntry → Tree
    node_at : PageId → Forest → Tree

  pub data Forest : Type 0 where
    last : Tree → Forest
    more : Tree → IndexKey → Forest → Forest

abbrev pub root : Tree → PageId
root (leaf_at id entries) = id
root (node_at id f) = id

unfoldable pub keys_of : Forest → List IndexKey
keys_of (last t) = []
keys_of (more t k f) = k ∷ keys_of f

unfoldable pub children_of : Forest → List PageId
children_of (last t) = root t ∷ []
children_of (more t k f) = root t ∷ children_of f

-- All entries, from the left to the right.
unfoldable mutual
  pub entries_of : Tree → List IndexEntry
  entries_of (leaf_at id entries) = entries
  entries_of (node_at id f) = entries_in f

  pub entries_in : Forest → List IndexEntry
  entries_in (last t) = entries_of t
  entries_in (more t k f) = entries_of t ++ entries_in f

-- The page of the leftmost leaf.
unfoldable mutual
  pub leftmost : Tree → PageId
  leftmost (leaf_at id entries) = id
  leftmost (node_at id f) = leftmost_in f

  pub leftmost_in : Forest → PageId
  leftmost_in (last t) = leftmost t
  leftmost_in (more t k f) = leftmost t

-- What an insertion makes of a tree: one, or two where the root was split.
pub data Grown : Type 0 where
  one : Tree → Grown
  two : Tree → IndexKey → Tree → Grown

-- The children with the changed one put back.
unfoldable pub plug : Grown → Forest
plug (one t) = last t
plug (two a k b) = more a k (last b)

unfoldable pub plug_before : Grown → IndexKey → Forest → Forest
plug_before (one t) k f = more t k f
plug_before (two a s b) k f = more a s (more b k f)

unfoldable pub put : IndexKey → Grown → Forest → Forest
put key g (last t) = plug g
put key g (more t k f) = elim (is_above key k) [
  | true ↦ more t k (put key g f)
  | false ↦ plug_before g k f
]

-- The children before the separator at a place, that separator, and the children after it.
unfoldable pub split_forest : ℕ → Forest → Option (Forest × IndexKey × Forest)
split_forest n (last t) = none
split_forest zero (more t k f) = some (last t, k, f)
split_forest (suc n) (more t k f) = elim (split_forest n f) [
  | none ↦ none
  | some (a, s, b) ↦ some (more t k a, s, b)
]

-- The leaf with its entries, or two leaves, the right one on the fresh page n.
unfoldable pub cut_leaf : PageId → PageId → List IndexEntry → List IndexEntry → Grown
cut_leaf id n front [] = one (leaf_at id front)
cut_leaf id n front (e ∷ back) = two (leaf_at id front) e.key (leaf_at n (e ∷ back))

unfoldable pub grown_leaf : PageId → PageId → List IndexEntry → Grown
grown_leaf id n entries = elim (leb (length entries) max_keys) [
  | true ↦ one (leaf_at id entries)
  | false ↦ cut_leaf id n (take (length entries / 2) entries) (drop (length entries / 2) entries)
]

abbrev pub cut_node : PageId → PageId → Forest → Option (Forest × IndexKey × Forest) → Grown
cut_node id n f none = one (node_at id f)
cut_node id n f (some (a, k, b)) = two (node_at id a) k (node_at n b)

unfoldable pub grown_node : PageId → PageId → Forest → Grown
grown_node id n f = elim (leb (length (keys_of f)) max_keys) [
  | true ↦ one (node_at id f)
  | false ↦ cut_node id n f (split_forest (length (keys_of f) / 2) f)
]

-- The fresh pages taken so far, given what the tree has become.
abbrev pub taken : Grown → ℕ → ℕ
taken (one t) n = n
taken (two a k b) n = n + 1

-- Insertion where n is the next fresh page, with the next fresh page after it.
unfoldable mutual
  pub ins : IndexEntry → ℕ → Tree → Grown × ℕ
  ins e n (leaf_at id entries) =
      let g = grown_leaf id n (insert_leaf_entry e entries) in (g, taken g n)
  ins e n (node_at id f) =
      let r = ins_in e n f in let g = grown_node id r.1 (put e.key r.0 f) in (g, taken g r.1)

  -- The insertion into the child that the key belongs to.
  pub ins_in : IndexEntry → ℕ → Forest → Grown × ℕ
  ins_in e n (last t) = ins e n t
  ins_in e n (more t k f) = elim (is_above e.key k) [ true ↦ ins_in e n f | false ↦ ins e n t ]

-- How many pages the tree takes.
unfoldable mutual
  pub size : Tree → ℕ
  size (leaf_at id entries) = 1
  size (node_at id f) = 1 + size_in f

  pub size_in : Forest → ℕ
  size_in (last t) = size t
  size_in (more t k f) = size t + size_in f

-- The steps taken where the key is above a separator, or at most it.
module _ (e : IndexEntry) (t : Tree) (k : IndexKey) (f : Forest) where
  pub put-above :
      (g : Grown) → is_above e.key k ≡ true → put e.key g (more t k f) ≡ more t k (put e.key g f)
  unfolding put
  put-above g h = ap (λ b. elim b [ true ↦ more t k (put e.key g f) | false ↦ plug_before g k f ]) h

  pub put-below :
      (g : Grown) → is_above e.key k ≡ false → put e.key g (more t k f) ≡ plug_before g k f
  unfolding put
  put-below g h = ap (λ b. elim b [ true ↦ more t k (put e.key g f) | false ↦ plug_before g k f ]) h

  pub ins_in-above : (n : ℕ) → is_above e.key k ≡ true → ins_in e n (more t k f) ≡ ins_in e n f
  unfolding ins
  ins_in-above n h = ap (λ b. elim b [ true ↦ ins_in e n f | false ↦ ins e n t ]) h

  pub ins_in-below : (n : ℕ) → is_above e.key k ≡ false → ins_in e n (more t k f) ≡ ins e n t
  unfolding ins
  ins_in-below n h = ap (λ b. elim b [ true ↦ ins_in e n f | false ↦ ins e n t ]) h

module _ (e x : IndexEntry) (es : List IndexEntry) where
  pub insert_leaf_entry-after :
      is_less (compare_entry x e) ≡ true → insert_leaf_entry e (x ∷ es) ≡ x ∷ insert_leaf_entry e es
  unfolding insert_leaf_entry
  insert_leaf_entry-after h =
      ap (λ b. elim b [ true ↦ x ∷ insert_leaf_entry e es | false ↦ e ∷ x ∷ es ]) h

  pub insert_leaf_entry-before :
      is_less (compare_entry x e) ≡ false → insert_leaf_entry e (x ∷ es) ≡ e ∷ x ∷ es
  unfolding insert_leaf_entry
  insert_leaf_entry-before h =
      ap (λ b. elim b [ true ↦ x ∷ insert_leaf_entry e es | false ↦ e ∷ x ∷ es ]) h
