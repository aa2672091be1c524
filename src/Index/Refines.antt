-- ===== src/Index/Refines.antt =====
-- crates/rdbms_index/src/lib.rs: how the pages of a node's children change with the chosen one.
use rdbms.Prelude.{
  ℕ, ◌+◌, ◌^◌, ◌≤◌, ◌<◌, ◌≡◌, ==_iff, refl, ap, arith, Bool, Bool-cases, true, false, inl, inr,
  Option, some, List, length,
}
use rdbms.Core.{PageId, ok}
use rdbms.Index.Format.{IndexKey, IndexEntry, BTreeNode, is_above, validate_internal_shape}
use rdbms.Index.RoundTrip.{IsNext}
use rdbms.Index.Tree.{BPlusTreePageStore}
use rdbms.Index.Forest.{
  Tree, leaf_at, node_at, Forest, last, more, Grown, one, two, keys_of, children_of, leftmost,
  leftmost_in, plug, plug_before, put, ins, ins_in, put-above, put-below, ins_in-above,
  ins_in-below, size, size_in,
}
use rdbms.Index.Fresh.{In, InForest, IsDistinct, AreDistinct}
use rdbms.Index.Chosen.{chosen, chosen-above, chosen-below, length-children_of}
use rdbms.Index.Leftmost.{leftmost-put}
use rdbms.Index.Stored.{PageView, IsPageStore, Has, Rep, RepIn, RepOf, Rep-frame, RepIn-frame}

-- The leaf after those of the chosen child.
unfoldable pub leaf_after : IndexKey → Forest → Option PageId → Option PageId
leaf_after key (last t) nxt = nxt
leaf_after key (more t k f) nxt = elim (is_above key k) [
  | true ↦ leaf_after key f nxt
  | false ↦ some (leftmost_in f)
]

module _ (e : IndexEntry) (t : Tree) (k : IndexKey) (f : Forest) (nxt : Option PageId) where
  leaf_after-above :
      is_above e.key k ≡ true → leaf_after e.key (more t k f) nxt ≡ leaf_after e.key f nxt
  unfolding leaf_after
  leaf_after-above h =
      ap (λ b. elim b [ true ↦ leaf_after e.key f nxt | false ↦ some (leftmost_in f) ]) h

  leaf_after-below :
      is_above e.key k ≡ false → leaf_after e.key (more t k f) nxt ≡ some (leftmost_in f)
  unfolding leaf_after
  leaf_after-below h =
      ap (λ b. elim b [ true ↦ leaf_after e.key f nxt | false ↦ some (leftmost_in f) ]) h

-- A property of the children is one of the chosen child.
module _ (T : Tree → Type 0) (F : Forest → Type 0) (at_last : (t : Tree) → F (last t) → T t)
    (at_more : (t : Tree) (k : IndexKey) (f : Forest) → F (more t k f) → T t × F f) where
  pub chosen_has : (e : IndexEntry) (f : Forest) → F f → T (chosen e.key f)
  unfolding chosen
  chosen_has e (last t) h = at_last t h
  chosen_has e (more t k f) h =
      let (here, there) = at_more t k f h in
      elim (Bool-cases (is_above e.key k)) [
        | inl up ↦ rw (chosen-above e t k f up) (chosen_has e f there)
        | inr down ↦ rw (chosen-below e t k f down) here
      ]

pub chosen-In : (e : IndexEntry) (f : Forest) (i : PageId) → In i (chosen e.key f) → InForest i f
unfolding In chosen
chosen-In e (last t) i h = h
chosen-In e (more t k f) i h = elim (Bool-cases (is_above e.key k)) [
  | inl up ↦ inr (chosen-In e f i (rw (chosen-above e t k f up) at h))
  | inr down ↦ inl (rw (chosen-below e t k f down) at h)
]

pub size-chosen : (e : IndexEntry) (f : Forest) → size (chosen e.key f) ≤ size_in f
unfolding size chosen
size-chosen e (last t) = omega arith
size-chosen e (more t k f) = elim (Bool-cases (is_above e.key k)) [
  | inl up ↦ rw (chosen-above e t k f up) (omega (arith, size-chosen e f))
  | inr down ↦ rw (chosen-below e t k f down) (omega arith)
]

mutual
  unfolding In leftmost

  leftmost-In : (t : Tree) → In (leftmost t) t
  leftmost-In (leaf_at id es) = refl
  leftmost-In (node_at id f) = inr (leftmost-InForest f)

  leftmost-InForest : (f : Forest) → InForest (leftmost_in f) f
  leftmost-InForest (last t) = leftmost-In t
  leftmost-InForest (more t k f) = inl (leftmost-In t)

pub validate_ok : (f : Forest) → validate_internal_shape (keys_of f) (children_of f) ≡ ok tt
unfolding validate_internal_shape
validate_ok f =
    rw ((==_iff (length (children_of f)) (length (keys_of f) + 1)).1 (length-children_of f)) refl

module _ {S : Type 0} (is_utf8 : List ℕ → Bool) (store : BPlusTreePageStore S) (view : PageView S)
    (laws : IsPageStore store view) where
  pub leaf_after-IsNext :
      (n : ℕ) (e : IndexEntry) (f : Forest) (nxt : Option PageId)
      → n ≤ 2 ^ 64
      → ((i : PageId) → InForest i f → i < n)
      → IsNext is_utf8 nxt
      → IsNext is_utf8 (leaf_after e.key f nxt)
  unfolding In leaf_after
  leaf_after-IsNext n e (last t) nxt le bound h = h
  leaf_after-IsNext n e (more t k f) nxt le bound h = elim (Bool-cases (is_above e.key k)) [
    | inl up ↦
        rw (leaf_after-above e t k f nxt up)
          (leaf_after-IsNext n e f nxt le (λ i p. bound i (inr p)) h)
    | inr down ↦
        rw (leaf_after-below e t k f nxt down)
          (omega (arith, bound (leftmost_in f) (inr (leftmost-InForest f)), le))
  ]

  pub chosen-Rep :
      (s : S) (e : IndexEntry) (f : Forest) (nxt : Option PageId)
      → RepIn is_utf8 store view laws s f nxt
      → Rep is_utf8 store view laws s (chosen e.key f) (leaf_after e.key f nxt)
  unfolding Rep chosen leaf_after
  chosen-Rep s e (last t) nxt h = h
  chosen-Rep s e (more t k f) nxt (h, hs) = elim (Bool-cases (is_above e.key k)) [
    | inl up ↦
        rw (leaf_after-above e t k f nxt up, chosen-above e t k f up) (chosen-Rep s e f nxt hs)
    | inr down ↦ rw (leaf_after-below e t k f nxt down, chosen-below e t k f down) h
  ]

  plug_before-Rep :
      (s : S) (g : Grown) (k : IndexKey) (f : Forest) (nxt : Option PageId)
      → RepOf is_utf8 store view laws s g (some (leftmost_in f))
      → RepIn is_utf8 store view laws s f nxt
      → RepIn is_utf8 store view laws s (plug_before g k f) nxt
  unfolding Rep plug_before leftmost
  plug_before-Rep s (one u) k f nxt h hs = (h, hs)
  plug_before-Rep s (two a k' b) k f nxt h hs = (h.0, (h.1, hs))

  put_last-Rep :
      (s : S) (e : IndexEntry) (g : Grown) (t : Tree) (nxt : Option PageId)
      → RepOf is_utf8 store view laws s g nxt
      → RepIn is_utf8 store view laws s (put e.key g (last t)) nxt
  unfolding Rep put plug leftmost
  put_last-Rep s e (one u) t nxt h = h
  put_last-Rep s e (two a k b) t nxt h = h

  -- The children are stored again where the chosen one is and the others were kept.
  pub put-Rep :
      (s s' : S) (e : IndexEntry) (n : ℕ) (f : Forest) (nxt : Option PageId)
      → RepIn is_utf8 store view laws s f nxt
      → AreDistinct f
      → ((i : PageId) (x : BTreeNode)
          → (In i (chosen e.key f) → ⊥)
          → InForest i f
          → Has is_utf8 store view laws s i x
          → Has is_utf8 store view laws s' i x)
      → RepOf is_utf8 store view laws s' (ins_in e n f).0 (leaf_after e.key f nxt)
      → RepIn is_utf8 store view laws s' (put e.key (ins_in e n f).0 f) nxt
  unfolding IsDistinct In Rep leaf_after chosen
  put-Rep s s' e n (last t) nxt h d frame g = put_last-Rep s' e (ins_in e n (last t)).0 t nxt g
  put-Rep s s' e n (more t k f) nxt (h, hs) (dt, df, away) frame g =
      elim (Bool-cases (is_above e.key k)) [
        | inl up ↦
            let there =
              put-Rep s s' e n f nxt hs df
                (λ i x out p. frame i x (λ q. out (rw (chosen-above e t k f up) at q)) (inr p))
                (rw (ins_in-above e t k f n up, leaf_after-above e t k f nxt up) at g) in
            rw (ins_in-above e t k f n up, put-above e t k f (ins_in e n f).0 up)
              (
                rw (leftmost-put e n f) (
                    Rep-frame is_utf8 store view laws s s' t _
                      (λ i x p.
                        frame i x
                          (λ q. away i p (chosen-In e f i (rw (chosen-above e t k f up) at q)))
                          (inl p))
                      h),
                there,
              )
        | inr down ↦
            let here = rw (ins_in-below e t k f n down, leaf_after-below e t k f nxt down) at g in
            rw (ins_in-below e t k f n down, put-below e t k f (ins e n t).0 down)
              (plug_before-Rep s' (ins e n t).0 k f nxt here (
                RepIn-frame is_utf8 store view laws s s' f nxt
                  (λ i x p. frame i x (λ q. away i (rw (chosen-below e t k f down) at q) p) (inr p))
                  hs))
      ]
