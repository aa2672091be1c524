-- ===== src/Index/Cut.antt =====
-- crates/rdbms_index/src/lib.rs: the lists of an internal node that is split, and what is
-- stored of its children.
use rdbms.Prelude.{
  ℕ, zero, suc, ◌+◌, ◌/◌, ◌^◌, ◌≤◌, ◌<◌, ◌≡◌, refl, sym, arith, Bool, true, false, inl, inr, Option,
  none, some, List, length, take, drop, All, All-map, leb,
}
use rdbms.Core.{PageId, DbResult, ok}
use rdbms.Exec.{Exec, lift, pure, ◌>>=◌, ◌>>◌}
use rdbms.Index.Format.{max_keys, IndexKey, internal, SplitResult}
use rdbms.Index.RoundTrip.{IsNode}
use rdbms.Index.Size.{IsSmall}
use rdbms.Index.Tree.{BPlusTreePageStore, store_node, put_internal, at_index}
use rdbms.Index.Forest.{
  Tree, Forest, last, more, root, keys_of, children_of, leftmost, leftmost_in, split_forest,
}
use rdbms.Index.Every.{Every, EveryIn}
use rdbms.Index.Fresh.{In, InForest, root_In}
use rdbms.Index.Chosen.{Cuts, length-children_of}
use rdbms.Index.Stored.{PageView, IsPageStore, IsFitKey, IsFitEntry, Rep, RepIn}
use rdbms.Index.Leftmost.{LeftmostOf, split_forest-LeftmostOf}

module _ {S : Type 0} (is_utf8 : List ℕ → Bool) (store : BPlusTreePageStore S) (view : PageView S)
    (laws : IsPageStore store view) where
  IsNode-fits :
      (keys : List IndexKey) (children : List PageId)
      → length children ≡ length keys + 1
      → length keys ≤ max_keys
      → All (IsFitKey is_utf8) keys
      → All (λ (p : ℕ). p < 2 ^ 64) children
      → IsNode is_utf8 (internal keys children) × IsSmall (internal keys children)
  IsNode-fits keys children same few fit ids = (
    (same, omega (arith, few, same), All-map _ _ keys (λ k h. h.0) fit, ids),
    (few, omega (arith, few, same), All-map _ _ keys (λ k h. h.1) fit),
  )

  pub put_internal-short :
      (id : PageId) (keys : List IndexKey) (children : List PageId)
      → leb (length keys) max_keys ≡ true
      → put_internal is_utf8 store id keys children
        ≡ (store_node is_utf8 store id (internal keys children) >> pure none)
  unfolding put_internal
  put_internal-short id keys children h = rw h refl

  -- The part of `put_internal` that splits.
  unfoldable pub store_halves :
      PageId
      → DbResult IndexKey
      → List IndexKey
      → List IndexKey
      → List PageId
      → List PageId
      → Exec S (Option SplitResult)
  store_halves id middle left_keys right_keys left right = do
    separator ← lift middle
    right_page_id ← store.allocate_page
    store_node is_utf8 store id (internal left_keys left)
    store_node is_utf8 store right_page_id (internal right_keys right)
    pure (some (record { separator = separator; right_page_id = right_page_id }))

  add_one : (n : ℕ) → n + 1 ≡ suc n
  add_one n = omega arith

  put_internal-long :
      (id : PageId) (keys : List IndexKey) (children : List PageId)
      → leb (length keys) max_keys ≡ false
      → put_internal is_utf8 store id keys children ≡ (
          let half = length keys / 2 in
          store_halves id
            (at_index half keys)
            (take half keys)
            (drop (suc half) keys)
            (take (suc half) children)
            (drop (suc half) children))
  unfolding put_internal store_halves
  put_internal-long id keys children h = rw (h, add_one (length keys / 2)) refl

  pub put_internal-cut :
      (id : PageId) (f a b : Forest) (k : IndexKey)
      → leb (length (keys_of f)) max_keys ≡ false
      → Cuts (length (keys_of f) / 2) f a k b
      → put_internal is_utf8 store id (keys_of f) (children_of f)
        ≡ store_halves id (ok k) (keys_of a) (keys_of b) (children_of a) (children_of b)
  put_internal-cut id f a b k long c =
      rw (c.keys_left, c.keys_right, c.children_left, c.children_right, sym c.middle)
        (put_internal-long id (keys_of f) (children_of f) long)

  keys_fit :
      (f : Forest)
      → EveryIn (IsFitKey is_utf8) (IsFitEntry is_utf8) f
      → All (IsFitKey is_utf8) (keys_of f)
  unfolding keys_of Every
  keys_fit (last t) h = tt
  keys_fit (more t k f) h = (h.1, keys_fit f h.2)

  children_below :
      (n : ℕ) (f : Forest)
      → ((i : PageId) → InForest i f → i < n)
      → n ≤ 2 ^ 64
      → All (λ (p : ℕ). p < 2 ^ 64) (children_of f)
  unfolding children_of In
  children_below n (last t) h le = (omega (arith, h (root t) (root_In t), le), tt)
  children_below n (more t k f) h le =
      (omega (arith, h (root t) (inl (root_In t)), le), children_below n f (λ i p. h i (inr p)) le)

  pub forest_fits :
      (n : ℕ) (f : Forest)
      → EveryIn (IsFitKey is_utf8) (IsFitEntry is_utf8) f
      → length (keys_of f) ≤ max_keys
      → ((i : PageId) → InForest i f → i < n)
      → n ≤ 2 ^ 64
      → IsNode is_utf8 (internal (keys_of f) (children_of f))
        × IsSmall (internal (keys_of f) (children_of f))
  forest_fits n f fit few below le =
      IsNode-fits (keys_of f) (children_of f) (length-children_of f) few (keys_fit f fit)
        (children_below n f below le)

  abbrev RepParts : S → Option PageId → Option (Forest × IndexKey × Forest) → Type 0
  RepParts s nxt none = Unit
  RepParts s nxt (some (a, k, b)) =
      RepIn is_utf8 store view laws s a (some (leftmost_in b))
      × RepIn is_utf8 store view laws s b nxt

  more-RepParts :
      (s : S) (t : Tree) (k : IndexKey) (least : PageId) (nxt : Option PageId)
      (parts : Option (Forest × IndexKey × Forest))
      → Rep is_utf8 store view laws s t (some least)
      → LeftmostOf least parts
      → RepParts s nxt parts
      → RepParts s nxt (elim parts [ none ↦ none | some (a, s, b) ↦ some (more t k a, s, b) ])
  unfolding Rep
  more-RepParts s t k least nxt none h l r = tt
  more-RepParts s t k least nxt (some (a, k', b)) h l r = ((rw l h, r.0), r.1)

  -- The halves of a node's children are stored as the children were.
  pub split_forest-RepParts :
      (s : S) (n : ℕ) (f : Forest) (nxt : Option PageId)
      → RepIn is_utf8 store view laws s f nxt
      → RepParts s nxt (split_forest n f)
  unfolding split_forest Rep leftmost
  split_forest-RepParts s n (last t) nxt r = tt
  split_forest-RepParts s zero (more t k f) nxt r = r
  split_forest-RepParts s (suc n) (more t k f) nxt (r, rs) =
      more-RepParts s t k (leftmost_in f) nxt (split_forest n f) r (split_forest-LeftmostOf n f)
        (split_forest-RepParts s n f nxt rs)
