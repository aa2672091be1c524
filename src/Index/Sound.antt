-- ===== src/Index/Sound.antt =====
-- crates/rdbms_index/src/lib.rs: the trees that the code builds, and an internal node once
-- the insertion into its child has returned.
use rdbms.Prelude.{
  ℕ, suc, ◌+◌, ◌^◌, ◌≤◌, ◌<◌, ◌≡◌, refl, arith, Bool, true, inl, inr, Option, List, length, leb,
  le→leb,
}
use rdbms.Core.{PageId}
use rdbms.Index.Format.{max_keys, IndexEntry, internal, child_index_for_key}
use rdbms.Index.Tree.{BPlusTreePageStore, after_child, put_internal}
use rdbms.Index.Forest.{
  Tree, Forest, Grown, one, two, root, keys_of, children_of, put, grown_node, taken, ins_in,
}
use rdbms.Index.Every.{Every, EveryIn, put-Every, ins_in-Every}
use rdbms.Index.Fresh.{In, InForest, IsDistinct, AreDistinct}
use rdbms.Index.Halves.{put-FreshensIn}
use rdbms.Index.Chosen.{chosen, put_one-lists, put_two-lists}
use rdbms.Index.Narrow.{IsNarrow, AreNarrow, put-AreNarrow, grown_node-short}
use rdbms.Index.Leftmost.{left_of}
use rdbms.Index.Stored.{PageView, IsPageStore, IsFitKey, IsFitEntry, Has, Rep, RepIn}
use rdbms.Index.Steps.{Makes, result}
use rdbms.Index.Inner.{put_internal-Makes}
use rdbms.Index.Refines.{chosen_has, chosen-In}

module _ {S : Type 0} (is_utf8 : List ℕ → Bool) (store : BPlusTreePageStore S) (view : PageView S)
    (laws : IsPageStore store view) where
  -- Trees that the code builds, on pages below n: all pages different, all nodes narrow, all keys and
  -- entries in range.
  pub record IsSound (n : ℕ) (t : Tree) : Type 0 where
    pub distinct : IsDistinct t
    pub below : (i : PageId) → In i t → i < n
    pub narrow : IsNarrow t
    pub fit : Every (IsFitKey is_utf8) (IsFitEntry is_utf8) t

  pub record AreSound (n : ℕ) (f : Forest) : Type 0 where
    pub distinct : AreDistinct f
    pub below : (i : PageId) → InForest i f → i < n
    pub narrow : AreNarrow f
    pub fit : EveryIn (IsFitKey is_utf8) (IsFitEntry is_utf8) f

  pub chosen-IsSound :
      (n : ℕ) (e : IndexEntry) (f : Forest) → AreSound n f → IsSound n (chosen e.key f)
  unfolding IsDistinct IsNarrow Every
  chosen-IsSound n e f h = record {
    distinct = chosen_has IsDistinct AreDistinct (λ t h. h) (λ t k f h. (h.0, h.1)) e f h.distinct;
    below = λ i p. h.below i (chosen-In e f i p);
    narrow = chosen_has IsNarrow AreNarrow (λ t h. h) (λ t k f h. h) e f h.narrow;
    fit =
        chosen_has (Every (IsFitKey is_utf8) (IsFitEntry is_utf8))
          (EveryIn (IsFitKey is_utf8) (IsFitEntry is_utf8)) (λ t h. h) (λ t k f h. (h.0, h.2)) e f
          h.fit;
  }

  -- The children of the node, after the chosen one has changed.
  pub put-AreSound :
      (n : ℕ) (e : IndexEntry) (f : Forest)
      → AreSound n f
      → IsFitEntry is_utf8 e
      → AreSound (ins_in e n f).1 (put e.key (ins_in e n f).0 f)
  put-AreSound n e f h fit =
      let fresh = put-FreshensIn e n f h.distinct h.below in
      record {
        distinct = fresh.distinct;
        below = λ i p. elim (fresh.ids i p) [
          | inl old ↦ omega (arith, h.below i old, fresh.grows)
          | inr new ↦ new.1
        ];
        narrow = (put-AreNarrow e n f h.narrow).0;
        fit =
            put-Every _ _ e.key (ins_in e n f).0 f
              (ins_in-Every _ _ (λ x p. (p.0.key, p.1)) e n f fit h.fit) h.fit;
      }

  -- The node with its children as they are now, whether the chosen one was split or not.
  module _ (s : S) (id : PageId) (nxt : Option PageId) (e : IndexEntry) (f : Forest)
      (valid : view.IsValid s) (room : view.next s + 1 < 2 ^ 64) (lt : id < view.next s)
      (few : length (keys_of f) ≤ max_keys)
      (has : Has is_utf8 store view laws s id (internal (keys_of f) (children_of f))) where
    pub after_child-Makes :
        (g : Grown)
        → root (left_of g) ≡ root (chosen e.key f)
        → (InForest id (put e.key g f) → ⊥)
        → AreSound (view.next s) (put e.key g f)
        → length (keys_of (put e.key g f)) ≤ max_keys + 1
        → RepIn is_utf8 store view laws s (put e.key g f) nxt
        → (s' : S) × Makes is_utf8 store view laws s s'
            (after_child is_utf8 store id
              (keys_of f)
              (children_of f)
              (child_index_for_key (keys_of f) e.key)
              (result g))
            (grown_node id (view.next s) (put e.key g f))
            nxt
            (λ i. i ≡ id)
            (taken (grown_node id (view.next s) (put e.key g f)) (view.next s))
    unfolding Rep
    after_child-Makes (one u) same own sound long rep =
        let (ks, cs) = put_one-lists e u f same in
        let short : leb (length (keys_of (put e.key (one u) f))) max_keys ≡ true =
          rw ks (le→leb (length (keys_of f)) max_keys few) in
        rw (grown_node-short id (view.next s) (put e.key (one u) f) short) (
          s,
          record {
            run = refl;
            valid = valid;
            next = refl;
            rep = (rw (ks, cs) has, rep);
            frame = λ i x away lower h. h;
          },
        )
    after_child-Makes (two a k b) same own sound long rep =
        let (ks, cs) = put_two-lists e a b k f same in
        let done =
          put_internal-Makes is_utf8 store view laws s id nxt (put e.key (two a k b) f) valid room
            lt own sound.below sound.fit rep long sound.distinct in
        let next_index : child_index_for_key (keys_of f) e.key + 1
            ≡ suc (child_index_for_key (keys_of f) e.key) =
          omega arith in
        let same_run : put_internal is_utf8 store id (keys_of (put e.key (two a k b) f))
              (children_of (put e.key (two a k b) f))
            ≡ after_child is_utf8 store id (keys_of f) (children_of f)
                (child_index_for_key (keys_of f) e.key) (result (two a k b)) =
          rw (next_index, ks, cs) refl in
        (done.0, rw same_run at done.1)
