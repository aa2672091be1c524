-- ===== src/Index/Steps.antt =====
-- crates/rdbms_index/src/lib.rs: what the last part of an insertion into a leaf does to the pages.
use rdbms.Prelude.{
  ℕ, ◌+◌, ◌/◌, ◌^◌, ◌≤◌, ◌<◌, ◌≡◌, refl, ◌∙◌, arith, Bool, Bool-cases, true, false, inl, inr,
  Option, none, some, List, [], ◌∷◌, length, take, drop, length-take, length-drop, All, All-map,
  All-take, All-drop, leb,
}
use rdbms.Core.{PageId, ok}
use rdbms.Exec.{Exec, bind_run, lift, pure, ◌>>=◌, ◌>>◌}
use rdbms.Index.Format.{max_keys, IndexEntry, BTreeNode, leaf, SplitResult}
use rdbms.Index.RoundTrip.{IsNext, IsNode}
use rdbms.Index.Size.{IsSmall}
use rdbms.Index.Tree.{BPlusTreePageStore, store_node, put_leaf, at_index}
use rdbms.Index.Forest.{Grown, one, two, root, leftmost, cut_leaf, grown_leaf, taken}
use rdbms.Index.Narrow.{grown_leaf-long, grown_leaf-short}
use rdbms.Index.Stored.{PageView, IsPageStore, IsFitEntry, Has, store_node_run, Rep, RepOf}

-- What an insertion returns.
abbrev pub result : Grown → Option SplitResult
result (one t) = none
result (two a k b) = some (record { separator = k; right_page_id = root b })

module _ {S : Type 0} (is_utf8 : List ℕ → Bool) (store : BPlusTreePageStore S) (view : PageView S)
    (laws : IsPageStore store view) where
  -- m turns the pages into those of g, and leaves all others but those that P tells of.
  pub record Makes (s s' : S) (m : Exec S (Option SplitResult)) (g : Grown) (nxt : Option PageId)
      (P : PageId → Type 0) (n : ℕ) : Type 0 where
    pub run : m s ≡ (ok (result g), s')
    pub valid : view.IsValid s'
    pub next : view.next s' ≡ n
    pub rep : RepOf is_utf8 store view laws s' g nxt
    pub frame :
        (i : PageId) (x : BTreeNode)
        → (P i → ⊥)
        → i < view.next s
        → Has is_utf8 store view laws s i x
        → Has is_utf8 store view laws s' i x

  leaf_fits :
      (nxt : Option PageId) (es : List IndexEntry)
      → IsNext is_utf8 nxt
      → length es ≤ max_keys
      → All (IsFitEntry is_utf8) es
      → IsNode is_utf8 (leaf nxt es) × IsSmall (leaf nxt es)
  leaf_fits nxt es ok_next few fit = (
    (ok_next, omega (arith, few), All-map _ _ es (λ e h. h.0) fit),
    (few, All-map _ _ es (λ e h. h.1) fit),
  )

  put_leaf-short :
      (id : PageId) (nxt : Option PageId) (es : List IndexEntry)
      → leb (length es) max_keys ≡ true
      → put_leaf is_utf8 store id nxt es ≡ (store_node is_utf8 store id (leaf nxt es) >> pure none)
  unfolding put_leaf
  put_leaf-short id nxt es h = rw h refl

  -- The part of `put_leaf` that splits.
  split_leaf :
      PageId → Option PageId → List IndexEntry → List IndexEntry → Exec S (Option SplitResult)
  split_leaf id nxt front back = do
    right_page_id ← store.allocate_page
    first ← lift (at_index 0 back)
    store_node is_utf8 store id (leaf (some right_page_id) front)
    store_node is_utf8 store right_page_id (leaf nxt back)
    pure (some (record { separator = first.key; right_page_id = right_page_id }))

  put_leaf-long :
      (id : PageId) (nxt : Option PageId) (es : List IndexEntry)
      → leb (length es) max_keys ≡ false
      → put_leaf is_utf8 store id nxt es
        ≡ split_leaf id nxt (take (length es / 2) es) (drop (length es / 2) es)
  unfolding put_leaf split_leaf
  put_leaf-long id nxt es h = rw h refl

  split_leaf-Makes :
      (s : S) (id : PageId) (nxt : Option PageId) (front back : List IndexEntry)
      → view.IsValid s
      → view.next s + 1 < 2 ^ 64
      → id < view.next s
      → IsNext is_utf8 nxt
      → length front ≤ max_keys
      → length back ≤ max_keys
      → 0 < length back
      → All (IsFitEntry is_utf8) front
      → All (IsFitEntry is_utf8) back
      → (s' : S) × Makes s s'
          (split_leaf id nxt front back)
          (cut_leaf id (view.next s) front back)
          nxt
          (λ i. i ≡ id)
          (taken (cut_leaf id (view.next s) front back) (view.next s))
  unfolding split_leaf at_index cut_leaf Rep leftmost
  split_leaf-Makes s id nxt front [] valid room lt ok_next few few' some' fit fit' =
      absurd (omega (arith, some'))
  split_leaf-Makes s id nxt front (e ∷ back) valid room lt ok_next few few' some' fit fit' =
      let n = view.next s in
      let (s1, run1, valid1, next1, keeps1) = laws.allocates s valid room in
      let (is_left, small_left) = leaf_fits (some n) front (omega (arith, room)) few fit in
      let (is_right, small_right) = leaf_fits nxt (e ∷ back) ok_next few' fit' in
      let (s2, two') =
        store_node_run is_utf8 store view laws s1 id _ valid1 (omega (arith, lt, room)) is_left
          small_left in
      let (s3, three) =
        store_node_run is_utf8 store view laws s2 n _ two'.valid (omega (arith, room)) is_right
          small_right in
      (
        s3,
        record {
          run =
              bind_run store.allocate_page _ s s1 n run1
              ∙ (bind_run (store_node is_utf8 store id (leaf (some n) front)) _ s1 s2 tt two'.run
                  ∙ bind_run (store_node is_utf8 store n (leaf nxt (e ∷ back))) _ s2 s3 tt
                      three.run);
          valid = three.valid;
          next = three.next ∙ (two'.next ∙ next1);
          rep = (three.others id _ (λ p. omega (arith, p, lt)) two'.has, three.has);
          frame = λ i x away below h.
              three.others i x (λ p. omega (arith, p, below))
                (two'.others i x away
                  (record { page = h.page; held = keeps1 i h.page h.held; read = h.read }));
        },
      )

  -- A leaf with one entry too many at most is stored whole or in two halves.
  pub put_leaf-Makes :
      (s : S) (id : PageId) (nxt : Option PageId) (es : List IndexEntry)
      → view.IsValid s
      → view.next s + 1 < 2 ^ 64
      → id < view.next s
      → IsNext is_utf8 nxt
      → length es ≤ max_keys + 1
      → All (IsFitEntry is_utf8) es
      → (s' : S) × Makes s s'
          (put_leaf is_utf8 store id nxt es)
          (grown_leaf id (view.next s) es)
          nxt
          (λ i. i ≡ id)
          (taken (grown_leaf id (view.next s) es) (view.next s))
  unfolding Rep
  put_leaf-Makes s id nxt es valid room lt ok_next few fit =
      elim (Bool-cases (leb (length es) max_keys)) [
        | inl short ↦
            let (is_leaf, small) = leaf_fits nxt es ok_next (ground (arith, short)) fit in
            let (s1, one') =
              store_node_run is_utf8 store view laws s id _ valid (omega (arith, lt, room)) is_leaf
                small in
            rw (put_leaf-short id nxt es short, grown_leaf-short id (view.next s) es short)
              (
                s1,
                record {
                  run = bind_run (store_node is_utf8 store id (leaf nxt es)) _ s s1 tt one'.run;
                  valid = one'.valid;
                  next = one'.next;
                  rep = one'.has;
                  frame = λ i x away below h. one'.others i x away h;
                },
              )
        | inr long ↦
            let half = length es / 2 in
            let size_back = length-drop half es in
            rw (put_leaf-long id nxt es long, grown_leaf-long id (view.next s) es long)
              (split_leaf-Makes s id nxt (take half es) (drop half es) valid room lt ok_next
                (omega (arith, length-take half es (omega arith), few))
                (omega (arith, size_back, few)) (ground (arith, size_back, long))
                (All-take _ half es fit) (All-drop _ half es fit))
      ]
