-- ===== src/Index/Insert.antt =====
-- crates/rdbms_index/src/lib.rs: `insert_recursive` on the pages of a tree is the insertion
-- into it.
use rdbms.Prelude.{
  ℕ, zero, suc, ◌+◌, ◌^◌, ◌≤◌, ◌<◌, ◌≡◌, refl, sym, ap, ◌∙◌, arith, Bool, inl, inr, Option, List,
}
use rdbms.Core.{PageId}
use rdbms.Exec.{bind_run, lift, ◌>>=◌}
use rdbms.Index.Format.{
  IndexEntry, leaf, internal, insert_leaf_entry, child_index_for_key, validate_internal_shape,
}
use rdbms.Index.RoundTrip.{IsNext}
use rdbms.Index.Tree.{
  BPlusTreePageStore, load_node, insert_recursive, after_child, at_index, put_leaf,
}
use rdbms.Index.Forest.{
  Tree, leaf_at, node_at, Forest, root, keys_of, children_of, put, ins, ins_in, size,
}
use rdbms.Index.Every.{Every, insert_leaf_entry-All}
use rdbms.Index.Fresh.{In, InForest, IsDistinct}
use rdbms.Index.Halves.{put-FreshensIn}
use rdbms.Index.Chosen.{chosen, at_index-chosen, ins_in-chosen}
use rdbms.Index.Narrow.{ins_in-taken, IsNarrow, put-AreNarrow, length-insert_leaf_entry}
use rdbms.Index.Leftmost.{left_of, ins-StaysAt}
use rdbms.Index.Stored.{PageView, IsPageStore, IsFitEntry, Has, load_node_run, Rep, RepIn}
use rdbms.Index.Steps.{Makes, result, put_leaf-Makes}
use rdbms.Index.Refines.{
  leaf_after, chosen-In, chosen-Rep, put-Rep, size-chosen, leaf_after-IsNext, validate_ok,
}
use rdbms.Index.Sound.{IsSound, AreSound, chosen-IsSound, put-AreSound, after_child-Makes}

module _ {S : Type 0} (is_utf8 : List ℕ → Bool) (store : BPlusTreePageStore S) (view : PageView S)
    (laws : IsPageStore store view) where
  module _ (s : S) (id : PageId) (nxt : Option PageId) (entries : List IndexEntry) (e : IndexEntry)
      (fuel : ℕ) where
    run_leaf :
        view.IsValid s
        → Has is_utf8 store view laws s id (leaf nxt entries)
        → insert_recursive is_utf8 store (suc fuel) id e s
          ≡ put_leaf is_utf8 store id nxt (insert_leaf_entry e entries) s
    unfolding insert_recursive
    run_leaf valid has =
        bind_run (load_node is_utf8 store id) _ s s (leaf nxt entries)
          (load_node_run is_utf8 store view laws s id _ valid has)

  module _ (s : S) (id : PageId) (e : IndexEntry) (f : Forest) (fuel : ℕ) where
    -- What follows the load of an internal node.
    run_node :
        view.IsValid s
        → Has is_utf8 store view laws s id (internal (keys_of f) (children_of f))
        → insert_recursive is_utf8 store (suc fuel) id e s
          ≡ (insert_recursive is_utf8 store fuel (root (chosen e.key f)) e >>= λ split.
                after_child is_utf8 store id
                  (keys_of f)
                  (children_of f)
                  (child_index_for_key (keys_of f) e.key)
                  split)
              s
    unfolding insert_recursive
    run_node valid has =
        bind_run (load_node is_utf8 store id) _ s s (internal (keys_of f) (children_of f))
          (load_node_run is_utf8 store view laws s id _ valid has)
        ∙ (bind_run (lift (validate_internal_shape (keys_of f) (children_of f))) _ s s tt
              (ap (λ r. (r, s)) (validate_ok f))
            ∙ bind_run (lift (at_index (child_index_for_key (keys_of f) e.key) (children_of f))) _ s
                s (root (chosen e.key f)) (ap (λ r. (r, s)) (at_index-chosen e f)))

  module _ (s : S) (id : PageId) (nxt : Option PageId) (e : IndexEntry) (f : Forest) (fuel : ℕ)
      (valid : view.IsValid s) (room : view.next s + size (node_at id f) < 2 ^ 64)
      (fit : IsFitEntry is_utf8 e)
      (sound : IsSound is_utf8 store view laws (view.next s) (node_at id f))
      (here : AreSound is_utf8 store view laws (view.next s) f)
      (has : Has is_utf8 store view laws s id (internal (keys_of f) (children_of f)))
      (rep : RepIn is_utf8 store view laws s f nxt) (s1 : S)
      (m : Makes is_utf8 store view laws s s1
        (insert_recursive is_utf8 store fuel (root (chosen e.key f)) e)
        (ins_in e (view.next s) f).0
        (leaf_after e.key f nxt)
        (λ i. In i (chosen e.key f))
        (ins_in e (view.next s) f).1) where
    node_own : InForest id (put e.key (ins_in e (view.next s) f).0 f) → ⊥
    unfolding IsDistinct In
    node_own p = elim ((put-FreshensIn e (view.next s) f here.distinct here.below).ids id p) [
      | inl old ↦ sound.distinct.0 old
      | inr new ↦ omega (arith, new.0, sound.below id (inl refl))
    ]

    -- An internal node, once the insertion into the child has returned.
    node_Makes :
        (s' : S) × Makes is_utf8 store view laws s s'
          (insert_recursive is_utf8 store (suc fuel) id e)
          (ins e (view.next s) (node_at id f)).0
          nxt
          (λ i. In i (node_at id f))
          (ins e (view.next s) (node_at id f)).1
    unfolding ins size In IsNarrow IsDistinct
    node_Makes =
        let n = view.next s in
        let grows = (put-FreshensIn e n f here.distinct here.below).grows in
        let fits = rw (sym m.next) at (put-AreSound is_utf8 store view laws n e f here fit) in
        let same_root : root (left_of (ins_in e n f).0) ≡ root (chosen e.key f) =
          rw (ins_in-chosen e n f) (ins-StaysAt e n (chosen e.key f)).0 in
        let lt : id < n = sound.below id (inl refl) in
        let narrow = sound.narrow.0 in
        let (s2, a) =
          after_child-Makes is_utf8 store view laws s1 id nxt e f m.valid
            (omega (arith, m.next, ins_in-taken e n f, room)) (omega (arith, m.next, grows, lt))
            narrow (m.frame id _ (λ p. sound.distinct.0 (chosen-In e f id p)) lt has)
            (ins_in e n f).0 same_root node_own fits
            (omega (arith, (put-AreNarrow e n f here.narrow).1, narrow))
            (put-Rep is_utf8 store view laws s s1 e n f nxt rep here.distinct
              (λ i x out p h. m.frame i x out (here.below i p) h) m.rep) in
        let b = rw m.next at a in
        (
          s2,
          record {
            run =
                run_node s id e f fuel valid has
                ∙ (bind_run (insert_recursive is_utf8 store fuel (root (chosen e.key f)) e) _ s s1
                      (result (ins_in e n f).0) m.run
                    ∙ b.run);
            valid = b.valid;
            next = b.next;
            rep = b.rep;
            frame = λ i x away lower h.
                a.frame i x (λ p. away (inl p)) (omega (arith, m.next, grows, lower))
                  (m.frame i x (λ p. away (inr (chosen-In e f i p))) lower h);
          },
        )

  -- With as much fuel as the tree has pages, and room for as many new ones, the code inserts.
  pub insert_recursive-Makes :
      (fuel : ℕ) (s : S) (t : Tree) (nxt : Option PageId) (e : IndexEntry)
      → view.IsValid s
      → size t ≤ fuel
      → view.next s + size t < 2 ^ 64
      → IsNext is_utf8 nxt
      → IsFitEntry is_utf8 e
      → IsSound is_utf8 store view laws (view.next s) t
      → Rep is_utf8 store view laws s t nxt
      → (s' : S) × Makes is_utf8 store view laws s s'
          (insert_recursive is_utf8 store fuel (root t) e)
          (ins e (view.next s) t).0
          nxt
          (λ i. In i t)
          (ins e (view.next s) t).1
  unfolding ins size In Every Rep IsNarrow IsDistinct
  insert_recursive-Makes zero s (leaf_at id es) nxt e valid enough room is_next fit sound rep =
      absurd (omega (arith, enough))
  insert_recursive-Makes zero s (node_at id f) nxt e valid enough room is_next fit sound rep =
      absurd (omega (arith, enough))
  insert_recursive-Makes (suc fuel) s (leaf_at id es) nxt e valid enough room is_next fit sound
        rep =
      let (s', m) =
        put_leaf-Makes is_utf8 store view laws s id nxt (insert_leaf_entry e es) valid
          (omega (arith, room)) (sound.below id refl) is_next
          (omega (arith, length-insert_leaf_entry e es, sound.narrow))
          (insert_leaf_entry-All (λ k. Unit) (IsFitEntry is_utf8) e es fit sound.fit) in
      (
        s',
        record {
          run = run_leaf s id nxt es e fuel valid rep ∙ m.run;
          valid = m.valid;
          next = m.next;
          rep = m.rep;
          frame = m.frame;
        },
      )
  insert_recursive-Makes (suc fuel) s (node_at id f) nxt e valid enough room is_next fit sound
        (has, rep) =
      let n = view.next s in
      let here : AreSound is_utf8 store view laws n f = record {
        distinct = sound.distinct.1;
        below = λ i p. sound.below i (inr p);
        narrow = sound.narrow.1;
        fit = sound.fit;
      } in
      let smaller = size-chosen e f in
      let child = chosen e.key f in
      let (s1, m) =
        insert_recursive-Makes fuel s child (leaf_after e.key f nxt) e valid
          (omega (arith, smaller, enough)) (omega (arith, smaller, room))
          (leaf_after-IsNext is_utf8 store view laws n e f nxt (omega (arith, room)) here.below
            is_next)
          fit (chosen-IsSound is_utf8 store view laws n e f here)
          (chosen-Rep is_utf8 store view laws s e f nxt rep) in
      node_Makes s id nxt e f fuel valid room fit sound here has rep s1
        (rw (sym (ins_in-chosen e n f)) at m)
