-- ===== src/Index/Lookup.antt =====
-- crates/rdbms_index/src/lib.rs: what `lookup` finds, and what `insert` changes of it.
use Prim.Native.Nat.Ordering.{eq}
use mathlib.Core.List.{append_assoc}
use rdbms.Prelude.{
  ℕ, zero, suc, ◌≤◌, ◌≡◌, ◌≢◌, refl, sym, ap, ◌∙◌, arith, Bool, Bool-cases, inl, inr, true, Option,
  none, List, [], ◌∷◌, ◌++◌, length, length-append, All, All-append, All-map,
}
use rdbms.Core.{PageId, ok}
use rdbms.Exec.{bind_run, lift}
use rdbms.Index.Format.{
  IndexKey, IndexEntry, cmp_key, leaf, internal, is_above, validate_internal_shape,
  child_index_for_key,
}
use rdbms.Index.Order.{IsAtMost, cmp_key-IsLinear}
use rdbms.Index.Tree.{BPlusTreePageStore, load_node, find_leaf, lookup, walk, at_index}
use rdbms.Index.Forest.{
  Tree, leaf_at, node_at, Forest, last, more, root, keys_of, children_of, entries_of, size,
}
use rdbms.Index.Ordered.{IsOrdered, IsOrderedIn}
use rdbms.Index.Chosen.{chosen, chosen-above, chosen-below, at_index-chosen}
use rdbms.Index.Stored.{PageView, IsPageStore, Rep, load_node_run}
use rdbms.Index.Refines.{chosen_has, chosen-Rep, size-chosen, validate_ok, leaf_after}
use rdbms.Index.Leaves.{
  rows_of, rows_of-append, rows_of-others, IsAscending, IsOrdered-IsAscending, Every-All, LeafPage,
  leaves_of, leaves_in, flat, flat-append, flat-leaves_of, length-leaves_of,
}
use rdbms.Index.Walk.{Chain, Chain-back, Rep-Chain, walk_run}
use rdbms.Index.Scan.{IsAscending-back}

-- All entries have a smaller key.
abbrev AreBelow : IndexKey → List IndexEntry → Type 0
AreBelow key es = All (λ x. is_above key x.key ≡ true) es

-- The leaf in which the search ends: no leaf before it has the key.
record IsFound (key : IndexKey) (leaves : List LeafPage) (page : PageId) : Type 0 where
  pub before : List LeafPage
  pub entries : List IndexEntry
  pub later : List LeafPage
  pub parts : leaves ≡ before ++ record { page = page; entries = entries } ∷ later
  pub smaller : AreBelow key (flat before)

above_of : (a s key : IndexKey) → IsAtMost a s → is_above key s ≡ true → is_above key a ≡ true
unfolding is_above
above_of a s key le up =
    grind
      (arith, cmp_key-IsLinear.flips a s, cmp_key-IsLinear.same a s, cmp_key-IsLinear.trans a s key)

smaller_ne : (a key : IndexKey) → is_above key a ≡ true → cmp_key a key ≢ eq
unfolding is_above
smaller_ne a key up same = grind (arith, same)

-- A key to search for, as the entry that an insertion would have.
abbrev probe : IndexKey → IndexEntry
probe key = record { key = key; row_id = record { page_id = 0; slot_id = 0 } }

IsFound-left :
    (key : IndexKey) (leaves after : List LeafPage) (page : PageId)
    → IsFound key leaves page
    → IsFound key (leaves ++ after) page
IsFound-left key leaves after page h = record {
  before = h.before;
  entries = h.entries;
  later = h.later ++ after;
  parts = ap (λ l. l ++ after) h.parts ∙ append_assoc h.before _ after;
  smaller = h.smaller;
}

IsFound-right :
    (key : IndexKey) (front leaves : List LeafPage) (page : PageId)
    → AreBelow key (flat front)
    → IsFound key leaves page
    → IsFound key (front ++ leaves) page
IsFound-right key front leaves page low h = record {
  before = front ++ h.before;
  entries = h.entries;
  later = h.later;
  parts = ap (λ l. front ++ l) h.parts ∙ sym (append_assoc front h.before _);
  smaller =
      rw (flat-append front h.before) (All-append _ (flat front) (flat h.before) low h.smaller);
}

-- What is found in the chosen child is found among all children.
chosen-IsFound :
    (key : IndexKey) (f : Forest) (page : PageId)
    → IsOrderedIn f
    → IsFound key (leaves_of (chosen key f)) page
    → IsFound key (leaves_in f) page
unfolding chosen leaves_of IsOrdered
chosen-IsFound key (last t) page o h = h
chosen-IsFound key (more t k f) page (ot, low, high, rest) h = elim (Bool-cases (is_above key k)) [
  | inl up ↦
      let there = chosen-IsFound key f page rest (rw (chosen-above (probe key) t k f up) at h) in
      let below : AreBelow key (flat (leaves_of t)) =
        rw (flat-leaves_of t)
          (All-map _ _ (entries_of t) (λ x le. above_of x.key k key le up) (Every-All _ _ t low)) in
      IsFound-right key (leaves_of t) (leaves_in f) page below there
  | inr down ↦
      IsFound-left key (leaves_of t) (leaves_in f) page
        (rw (chosen-below (probe key) t k f down) at h)
]

module _ {S : Type 0} (is_utf8 : List ℕ → Bool) (store : BPlusTreePageStore S) (view : PageView S)
    (laws : IsPageStore store view) where
  find_leaf_run :
      (fuel : ℕ) (s : S) (t : Tree) (nxt : Option PageId) (key : IndexKey)
      → view.IsValid s
      → size t ≤ fuel
      → IsOrdered t
      → Rep is_utf8 store view laws s t nxt
      → (page : PageId) × (find_leaf is_utf8 store fuel (root t) key s ≡ (ok page, s))
        × IsFound key (leaves_of t) page
  unfolding find_leaf size Rep IsOrdered leaves_of flat
  find_leaf_run zero s (leaf_at id es) nxt key valid enough o rep = absurd (omega (arith, enough))
  find_leaf_run zero s (node_at id f) nxt key valid enough o rep = absurd (omega (arith, enough))
  find_leaf_run (suc fuel) s (leaf_at id es) nxt key valid enough o rep = (
    id,
    bind_run (load_node is_utf8 store id) _ s s (leaf nxt es)
        (load_node_run is_utf8 store view laws s id _ valid rep),
    record { before = []; entries = es; later = []; parts = refl; smaller = tt },
  )
  find_leaf_run (suc fuel) s (node_at id f) nxt key valid enough o (has, rep) =
      let e = probe key in
      let (page, run, found) =
        find_leaf_run fuel s (chosen key f) (leaf_after key f nxt) key valid
          (omega (arith, size-chosen e f, enough))
          (chosen_has IsOrdered IsOrderedIn (λ t h. h) (λ t k f h. (h.0, h.3)) e f o)
          (chosen-Rep is_utf8 store view laws s e f nxt rep) in
      (
        page,
        bind_run (load_node is_utf8 store id) _ s s (internal (keys_of f) (children_of f))
              (load_node_run is_utf8 store view laws s id _ valid has)
            ∙ (bind_run (lift (validate_internal_shape (keys_of f) (children_of f))) _ s s tt
                  (ap (λ r. (r, s)) (validate_ok f))
                ∙ (bind_run (lift (at_index (child_index_for_key (keys_of f) key) (children_of f)))
                      _ s s (root (chosen key f)) (ap (λ r. (r, s)) (at_index-chosen e f))
                    ∙ run)),
        chosen-IsFound key f page o found,
      )

  found_rows :
      (s : S) (fuel : ℕ) (key : IndexKey) (leaves : List LeafPage) (page : PageId)
      → IsFound key leaves page
      → view.IsValid s
      → Chain is_utf8 store view laws s leaves none
      → IsAscending (flat leaves)
      → length leaves ≤ fuel
      → walk is_utf8 store fuel page key [] s ≡ (ok (rows_of key (flat leaves)), s)
  found_rows s fuel key leaves page h valid chain up enough =
      let l : LeafPage = record { page = page; entries = h.entries } in
      let split = ap flat h.parts ∙ flat-append h.before (l ∷ h.later) in
      let none_before =
        rows_of-others key (flat h.before)
          (All-map _ _ (flat h.before) (λ x p. smaller_ne x.key key p) h.smaller) in
      walk_run is_utf8 store view laws fuel s l h.later key [] valid
        (Chain-back is_utf8 store view laws s h.before (l ∷ h.later) none (rw h.parts at chain))
        (IsAscending-back (flat h.before) _ (rw split at up))
        (omega (arith, enough, ap length h.parts, length-append h.before (l ∷ h.later)))
      ∙ ap (λ r. (ok r, s))
          (ap (λ r. r ++ rows_of key (flat (l ∷ h.later))) (sym none_before)
            ∙ (sym (rows_of-append key (flat h.before) (flat (l ∷ h.later)))
                ∙ ap (rows_of key) (sym split)))

  -- On a tree in order the lookup returns the rows of exactly the entries with the key, in their order.
  pub lookup_run :
      (fuel : ℕ) (s : S) (t : Tree) (key : IndexKey)
      → view.IsValid s
      → size t ≤ fuel
      → IsOrdered t
      → Rep is_utf8 store view laws s t none
      → lookup is_utf8 store fuel (root t) key s ≡ (ok (rows_of key (entries_of t)), s)
  unfolding lookup
  lookup_run fuel s t key valid enough o rep =
      let (page, run, found) = find_leaf_run fuel s t none key valid enough o rep in
      bind_run (find_leaf is_utf8 store fuel (root t) key) _ s s page run
      ∙ (found_rows s fuel key (leaves_of t) page found valid
            (Rep-Chain is_utf8 store view laws s t none rep)
            (rw (flat-leaves_of t) (IsOrdered-IsAscending t o))
            (omega (arith, length-leaves_of t, enough))
          ∙ ap (λ es. (ok (rows_of key es), s)) (flat-leaves_of t))
