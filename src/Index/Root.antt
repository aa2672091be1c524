-- ===== src/Index/Root.antt =====
-- crates/rdbms_index/src/lib.rs: when pages are an index, and what becomes of its root.
use rdbms.Prelude.{Bool, inl, inr, ℕ, ◌+◌, ◌^◌, ◌<◌, ◌≡◌, refl, ◌∙◌, arith, none, List, [], ◌∷◌}
use rdbms.Core.{PageId, ok}
use rdbms.Exec.{Exec, bind_run}
use rdbms.Index.Format.{IndexEntry, BTreeNode, leaf, internal}
use rdbms.Index.Tree.{BPlusTreePageStore, initialize_root, grow_root, store_node}
use rdbms.Index.Forest.{
  keys_of, children_of, Tree, leaf_at, node_at, last, more, Grown, one, two, root, entries_of,
  leftmost, ins,
}
use rdbms.Index.Every.{Every, EveryOf, ins-Every}
use rdbms.Index.Ordered.{IsSorted, IsOrdered, IsOrderedOf, ins-IsOrdered}
use rdbms.Index.Inserted.{entries_grown}
use rdbms.Index.Fresh.{In, InGrown, IsDistinct, GrownIsDistinct, root_In}
use rdbms.Index.Halves.{ins-Freshens}
use rdbms.Index.Narrow.{IsNarrow, GrownIsNarrow, ins-IsNarrow}
use rdbms.Index.Leftmost.{left_of}
use rdbms.Index.Stored.{
  PageView, IsPageStore, IsFitKey, IsFitEntry, Has, Rep, RepOf, Rep-frame, store_node_run,
}
use rdbms.Index.Steps.{Makes, result}
use rdbms.Index.Sound.{IsSound}

module _ {S : Type 0} (is_utf8 : List ℕ → Bool) (store : BPlusTreePageStore S) (view : PageView S)
    (laws : IsPageStore store view) where
  -- The pages from the root of the tree on are an index.
  pub record IsIndex (s : S) (t : Tree) : Type 0 where
    pub valid : view.IsValid s
    pub sound : IsSound is_utf8 store view laws (view.next s) t
    pub ordered : IsOrdered t
    pub rep : Rep is_utf8 store view laws s t none

  -- A grown tree with all that an insertion says of it.
  pub record IsGrown (s : S) (g : Grown) : Type 0 where
    pub valid : view.IsValid s
    pub distinct : GrownIsDistinct g
    pub below : (i : PageId) → InGrown i g → i < view.next s
    pub narrow : GrownIsNarrow g
    pub fit : EveryOf (IsFitKey is_utf8) (IsFitEntry is_utf8) g
    pub ordered : IsOrderedOf g
    pub rep : RepOf is_utf8 store view laws s g none

  -- A root page that starts empty is an index without entries.
  pub initialize_root-IsIndex :
      (s : S) (id : PageId)
      → view.IsValid s
      → id < view.next s
      → view.next s < 2 ^ 64
      → (s' : S) × (initialize_root is_utf8 store id s ≡ (ok tt, s')) × IsIndex s' (leaf_at id [])
  unfolding initialize_root In IsDistinct IsNarrow Every IsOrdered IsSorted Rep
  initialize_root-IsIndex s id valid low room =
      let (s', h) =
        store_node_run is_utf8 store view laws s id (leaf none []) valid (omega (arith, low, room))
          (tt, omega arith, tt) (omega arith, tt) in
      (
        s',
        h.run,
        record {
          valid = h.valid;
          sound = record {
            distinct = tt;
            below = λ i p. omega (arith, p, h.next, low);
            narrow = omega arith;
            fit = tt;
          };
          ordered = tt;
          rep = h.has;
        },
      )

  pub ins-IsGrown :
      (s s' : S) (t : Tree) (e : IndexEntry) (m : Exec S _)
      → IsFitEntry is_utf8 e
      → IsIndex s t
      → Makes is_utf8 store view laws s s' m
          (ins e (view.next s) t).0
          none
          (λ i. In i t)
          (ins e (view.next s) t).1
      → IsGrown s' (ins e (view.next s) t).0
  ins-IsGrown s s' t e m fit h made =
      let n = view.next s in
      let fresh = ins-Freshens e n t h.sound.distinct h.sound.below in
      record {
        valid = made.valid;
        distinct = fresh.distinct;
        below = λ i p. elim (fresh.ids i p) [
          | inl old ↦ omega (arith, h.sound.below i old, fresh.grows, made.next)
          | inr new ↦ omega (arith, new.1, made.next)
        ];
        narrow = ins-IsNarrow e n t h.sound.narrow;
        fit = ins-Every _ _ (λ x p. (p.0.key, p.1)) e n t fit h.sound.fit;
        ordered = ins-IsOrdered e n t h.ordered;
        rep = made.rep;
      }

  pub grow_root-IsIndex :
      (s : S) (g : Grown)
      → IsGrown s g
      → view.next s + 1 < 2 ^ 64
      → (s' : S) × (t : Tree) × (grow_root is_utf8 store (root (left_of g)) (result g) s
          ≡ (ok (root t), s'))
        × IsIndex s' t
        × (entries_of t ≡ entries_grown g)
  unfolding In IsDistinct IsNarrow Every IsOrdered Rep keys_of children_of entries_of leftmost
  grow_root-IsIndex s (one u) h room = (
    s,
    u,
    refl,
    record {
      valid = h.valid;
      sound = record { distinct = h.distinct; below = h.below; narrow = h.narrow; fit = h.fit };
      ordered = h.ordered;
      rep = h.rep;
    },
    refl,
  )
  grow_root-IsIndex s (two a k b) h room =
      let n = view.next s in
      let new_root = internal (k ∷ []) (root a ∷ root b ∷ []) in
      let (s1, run1, valid1, next1, keeps1) = laws.allocates s h.valid room in
      let low_a : root a < n = h.below (root a) (inl (root_In a)) in
      let low_b : root b < n = h.below (root b) (inr (root_In b)) in
      let (s2, two') =
        store_node_run is_utf8 store view laws s1 n new_root valid1 (omega (arith, room))
          (
            omega arith,
            omega arith,
            (h.fit.1.0, tt),
            (omega (arith, low_a, room), (omega (arith, low_b, room), tt)),
          )
          (omega arith, omega arith, (h.fit.1.1, tt)) in
      let keeps : (i : PageId) (x : BTreeNode)
          → i < n
          → Has is_utf8 store view laws s i x
          → Has is_utf8 store view laws s2 i x =
        λ i x lower p.
          two'.others i x (λ q. omega (arith, q, lower))
            (record { page = p.page; held = keeps1 i p.page p.held; read = p.read }) in
      (
        s2,
        node_at n (more a k (last b)),
        bind_run store.allocate_page _ s s1 n run1
            ∙ bind_run (store_node is_utf8 store n new_root) _ s1 s2 tt two'.run,
        record {
          valid = two'.valid;
          sound = record {
            distinct = (λ p. omega (arith, h.below n p), h.distinct);
            below = λ i p. elim p [
              | inl q ↦ omega (arith, q, two'.next, next1)
              | inr q ↦ omega (arith, h.below i q, two'.next, next1)
            ];
            narrow = (omega arith, h.narrow);
            fit = h.fit;
          };
          ordered = h.ordered;
          rep = (
            two'.has,
            (
              Rep-frame is_utf8 store view laws s s2 a _ (λ i x p. keeps i x (h.below i (inl p)))
                  h.rep.0,
              Rep-frame is_utf8 store view laws s s2 b _ (λ i x p. keeps i x (h.below i (inr p)))
                  h.rep.1,
            ),
          );
        },
        refl,
      )
