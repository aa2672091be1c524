-- ===== src/Index/Inner.antt =====
-- crates/rdbms_index/src/lib.rs: what the last part of an insertion does to an internal
-- node's pages.
use rdbms.Prelude.{
  ℕ, suc, ◌+◌, ◌/◌, ◌^◌, ◌≤◌, ◌<◌, ◌≡◌, ◌≢◌, ap, ◌∙◌, arith, Bool, Bool-cases, true, false, inl,
  inr, Option, none, some, List, length, length-take, length-drop, leb,
}
use rdbms.Core.{PageId, ok}
use rdbms.Exec.{bind_run, pure, ◌>>◌}
use rdbms.Index.Format.{max_keys, IndexKey, BTreeNode, internal}
use rdbms.Index.Tree.{BPlusTreePageStore, store_node, put_internal}
use rdbms.Index.Forest.{
  node_at, Forest, one, two, keys_of, children_of, leftmost, leftmost_in, grown_node, taken,
}
use rdbms.Index.Every.{EveryIn, split_forest-Every}
use rdbms.Index.Fresh.{InForest, AreDistinct}
use rdbms.Index.Halves.{Parts, split_forest-ArePartsOf}
use rdbms.Index.Chosen.{Cuts, split_forest-Cuts}
use rdbms.Index.Narrow.{grown_node-long, grown_node-short}
use rdbms.Index.Stored.{
  PageView, IsPageStore, IsFitKey, IsFitEntry, Has, store_node_run, Rep, RepIn, RepIn-frame,
}
use rdbms.Index.Steps.{Makes}
use rdbms.Index.Cut.{
  put_internal-short, store_halves, put_internal-cut, forest_fits, split_forest-RepParts,
}

module _ {S : Type 0} (is_utf8 : List ℕ → Bool) (store : BPlusTreePageStore S) (view : PageView S)
    (laws : IsPageStore store view) where
  -- Children that are stored, with one key too many at most, get their node or two.
  module _ (s : S) (id : PageId) (nxt : Option PageId) (f : Forest) (valid : view.IsValid s)
      (room : view.next s + 1 < 2 ^ 64) (lt : id < view.next s) (own : InForest id f → ⊥)
      (below : (i : PageId) → InForest i f → i < view.next s)
      (fit : EveryIn (IsFitKey is_utf8) (IsFitEntry is_utf8) f)
      (rep : RepIn is_utf8 store view laws s f nxt) where
    whole_Makes :
        leb (length (keys_of f)) max_keys ≡ true
        → (s' : S) × Makes is_utf8 store view laws s s'
            (store_node is_utf8 store id (internal (keys_of f) (children_of f)) >> pure none)
            (one (node_at id f))
            nxt
            (λ i. i ≡ id)
            (view.next s)
    unfolding Rep
    whole_Makes short =
        let (is_node, small) =
          forest_fits is_utf8 store view laws (view.next s) f fit (ground (arith, short)) below
            (omega (arith, room)) in
        let (s1, one') =
          store_node_run is_utf8 store view laws s id _ valid (omega (arith, lt, room)) is_node
            small in
        (
          s1,
          record {
            run =
                bind_run (store_node is_utf8 store id (internal (keys_of f) (children_of f))) _ s s1
                  tt one'.run;
            valid = one'.valid;
            next = one'.next;
            rep = (
              one'.has,
              RepIn-frame is_utf8 store view laws s s1 f nxt
                  (λ i x p. one'.others i x (λ q. own (rw q at p))) rep,
            );
            frame = λ i x away lower h. one'.others i x away h;
          },
        )

    module _ (few : length (keys_of f) ≤ max_keys + 1)
        (long : leb (length (keys_of f)) max_keys ≡ false) (a b : Forest) (k : IndexKey)
        (c : Cuts (length (keys_of f) / 2) f a k b) (p : Parts f a b)
        (ea : EveryIn (IsFitKey is_utf8) (IsFitEntry is_utf8) a)
        (eb : EveryIn (IsFitKey is_utf8) (IsFitEntry is_utf8) b)
        (ra : RepIn is_utf8 store view laws s a (some (leftmost_in b)))
        (rb : RepIn is_utf8 store view laws s b nxt) where
      cut_Makes :
          (s' : S) × Makes is_utf8 store view laws s s'
            (store_halves is_utf8 store view laws id
              (ok k)
              (keys_of a)
              (keys_of b)
              (children_of a)
              (children_of b))
            (two (node_at id a) k (node_at (view.next s) b))
            nxt
            (λ i. i ≡ id)
            (view.next s + 1)
      unfolding store_halves Rep leftmost
      cut_Makes =
          let n = view.next s in
          let half = length (keys_of f) / 2 in
          let (s1, run1, valid1, next1, keeps1) = laws.allocates s valid room in
          let few_left : length (keys_of a) ≤ max_keys =
            omega (arith, ap length c.keys_left, length-take half (keys_of f) (omega arith), few) in
          let few_right : length (keys_of b) ≤ max_keys =
            ground (arith, ap length c.keys_right, length-drop (suc half) (keys_of f), few) in
          let (is_left, small_left) =
            forest_fits is_utf8 store view laws n a ea few_left (λ i q. below i (p.left i q))
              (omega (arith, room)) in
          let (is_right, small_right) =
            forest_fits is_utf8 store view laws n b eb few_right (λ i q. below i (p.right i q))
              (omega (arith, room)) in
          let (s2, two') =
            store_node_run is_utf8 store view laws s1 id _ valid1 (omega (arith, lt, room)) is_left
              small_left in
          let (s3, three) =
            store_node_run is_utf8 store view laws s2 n _ two'.valid (omega (arith, room)) is_right
              small_right in
          let keeps : (i : PageId) (x : BTreeNode)
              → i ≢ id
              → i < n
              → Has is_utf8 store view laws s i x
              → Has is_utf8 store view laws s3 i x =
            λ i x away lower h.
              three.others i x (λ q. omega (arith, q, lower))
                (two'.others i x away
                  (record { page = h.page; held = keeps1 i h.page h.held; read = h.read })) in
          (
            s3,
            record {
              run =
                  bind_run store.allocate_page _ s s1 n run1
                  ∙ (bind_run (store_node is_utf8 store id (internal (keys_of a) (children_of a))) _
                        s1 s2 tt two'.run
                      ∙ bind_run (store_node is_utf8 store n (internal (keys_of b) (children_of b)))
                          _ s2 s3 tt three.run);
              valid = three.valid;
              next = three.next ∙ (two'.next ∙ next1);
              rep = (
                (
                  three.others id _ (λ q. omega (arith, q, lt)) two'.has,
                  RepIn-frame is_utf8 store view laws s s3 a _
                      (λ i x q. keeps i x (λ r. own (rw r at (p.left i q))) (below i (p.left i q)))
                      ra,
                ),
                (
                  three.has,
                  RepIn-frame is_utf8 store view laws s s3 b nxt
                      (λ i x q.
                        keeps i x (λ r. own (rw r at (p.right i q))) (below i (p.right i q)))
                      rb,
                ),
              );
              frame = λ i x away lower h. keeps i x away lower h;
            },
          )

    pub put_internal-Makes :
        length (keys_of f) ≤ max_keys + 1
        → AreDistinct f
        → (s' : S) × Makes is_utf8 store view laws s s'
            (put_internal is_utf8 store id (keys_of f) (children_of f))
            (grown_node id (view.next s) f)
            nxt
            (λ i. i ≡ id)
            (taken (grown_node id (view.next s) f) (view.next s))
    put_internal-Makes few distinct = elim (Bool-cases (leb (length (keys_of f)) max_keys)) [
      | inl short ↦
          rw
            (
              put_internal-short is_utf8 store view laws id (keys_of f) (children_of f) short,
              grown_node-short id (view.next s) f short,
            )
            (whole_Makes short)
      | inr long ↦
          let half = length (keys_of f) / 2 in
          let (a, k, b, c) = split_forest-Cuts half f (ground (arith, long)) in
          let p = rw c.cut at (split_forest-ArePartsOf half f distinct) in
          let (ea, ek, eb) = rw c.cut at (split_forest-Every _ _ half f fit) in
          let (ra, rb) =
            rw c.cut at (split_forest-RepParts is_utf8 store view laws s half f nxt rep) in
          rw
            (
              put_internal-cut is_utf8 store view laws id f a b k long c,
              grown_node-long id (view.next s) f a b k long c.cut,
            )
            (cut_Makes few long a b k c p ea eb ra rb)
    ]
