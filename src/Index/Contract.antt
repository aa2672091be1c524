-- ===== src/Index/Contract.antt =====
-- crates/rdbms_index/src/lib.rs: what an index promises, a list of entries in the order of
-- their keys to which `insert` adds one and which `lookup` searches.
use rdbms.Prelude.{
  Bool, inl, inr, ◌⊎◌, ℕ, ◌+◌, ◌^◌, ◌≤◌, ◌<◌, ◌≡◌, ◌≢◌, refl, sym, ap, ◌∙◌, arith, none, List, [],
  ◌∷◌, ◌++◌,
}
use Prim.Native.Nat.Ordering.{lt, eq, gt}
use rdbms.Core.{PageId, RowId, ok}
use rdbms.Exec.{bind_run}
use rdbms.Index.Format.{IndexKey, IndexEntry, cmp_key}
use rdbms.Index.Tree.{BPlusTreePageStore, insert, insert_recursive, grow_root, lookup}
use rdbms.Index.Forest.{Tree, root, entries_of, ins, size}
use rdbms.Index.Inserted.{Inserts, ins-Inserts}
use rdbms.Index.Narrow.{ins-taken}
use rdbms.Index.Leftmost.{ins-StaysAt}
use rdbms.Index.Stored.{PageView, IsPageStore, IsFitEntry}
use rdbms.Index.Steps.{result}
use rdbms.Index.Insert.{insert_recursive-Makes}
use rdbms.Index.Leaves.{rows_of, rows_of-append, rows_of-others}
use rdbms.Index.Lookup.{lookup_run}
use rdbms.Index.Root.{IsIndex, ins-IsGrown, grow_root-IsIndex}

module _ {S : Type 0} (is_utf8 : List ℕ → Bool) (store : BPlusTreePageStore S) (view : PageView S)
    (laws : IsPageStore store view) where
  -- An index stays one when an entry in range is inserted, with as much fuel as it has pages and room
  -- for as many new ones and a new root. Its entries are then the old ones and, among them, the new one.
  pub insert-IsIndex :
      (s : S) (t : Tree) (e : IndexEntry) (fuel : ℕ)
      → IsIndex is_utf8 store view laws s t
      → IsFitEntry is_utf8 e
      → size t ≤ fuel
      → view.next s + size t + 1 < 2 ^ 64
      → (s' : S) × (t' : Tree) × (insert is_utf8 store fuel (root t) e s ≡ (ok (root t'), s'))
        × IsIndex is_utf8 store view laws s' t'
        × Inserts e (entries_of t) (entries_of t')
  unfolding insert
  insert-IsIndex s t e fuel h fit enough room =
      let n = view.next s in
      let (s1, made) =
        insert_recursive-Makes is_utf8 store view laws fuel s t none e h.valid enough
          (omega (arith, room)) tt fit h.sound h.rep in
      let grown = ins-IsGrown is_utf8 store view laws s s1 t e _ fit h made in
      let (s2, t', run, index, same) =
        grow_root-IsIndex is_utf8 store view laws s1 (ins e n t).0 grown
          (omega (arith, made.next, ins-taken e n t, room)) in
      (
        s2,
        t',
        bind_run (insert_recursive is_utf8 store fuel (root t) e) _ s s1 (result (ins e n t).0)
              made.run
            ∙ (ap (λ i. grow_root is_utf8 store i (result (ins e n t).0) s1)
                  (sym (ins-StaysAt e n t).0)
                ∙ run),
        index,
        rw same (ins-Inserts e n t),
      )

  -- On an index, `lookup` with as much fuel as the index has pages returns the rows of the entries with
  -- the key, and leaves the store as it is.
  pub lookup-IsIndex :
      (s : S) (t : Tree) (key : IndexKey) (fuel : ℕ)
      → IsIndex is_utf8 store view laws s t
      → size t ≤ fuel
      → lookup is_utf8 store fuel (root t) key s ≡ (ok (rows_of key (entries_of t)), s)
  lookup-IsIndex s t key fuel h enough =
      lookup_run is_utf8 store view laws fuel s t key h.valid enough h.ordered h.rep

rows_of_equal :
    (key : IndexKey) (e : IndexEntry) (es : List IndexEntry)
    → cmp_key e.key key ≡ eq
    → rows_of key (e ∷ es) ≡ e.row_id ∷ rows_of key es
unfolding rows_of
rows_of_equal key e es h =
    ap
      (λ c. elim c as (λ _. List RowId) [
        | eq ↦ e.row_id ∷ rows_of key es
        | lt ↦ rows_of key es
        | gt ↦ rows_of key es
      ])
      h

rows_of_other :
    (key : IndexKey) (e : IndexEntry) (es : List IndexEntry)
    → cmp_key e.key key ≢ eq
    → rows_of key (e ∷ es) ≡ rows_of key es
rows_of_other key e es h =
    rows_of-append key (e ∷ []) es
    ∙ ap (λ l. l ++ rows_of key es) (rows_of-others key (e ∷ []) (h, tt))

-- The rows of a key, where an entry has been added.
Inserts-rows_of :
    (key : IndexKey) (e : IndexEntry) (old new : List IndexEntry)
    → Inserts e old new
    → cmp_key e.key key ≡ eq
    → Inserts e.row_id (rows_of key old) (rows_of key new)
unfolding rows_of
Inserts-rows_of key e old new i same = record {
  front = rows_of key i.front;
  back = rows_of key i.back;
  before = ap (rows_of key) i.before ∙ rows_of-append key i.front i.back;
  after =
      ap (rows_of key) i.after
      ∙ (rows_of-append key i.front (e ∷ i.back)
          ∙ ap (λ l. rows_of key i.front ++ l) (rows_of_equal key e i.back same));
}

rows_of-kept :
    (key : IndexKey) (e : IndexEntry) (old new : List IndexEntry)
    → Inserts e old new
    → cmp_key e.key key ≢ eq
    → rows_of key new ≡ rows_of key old
rows_of-kept key e old new i other =
    ap (rows_of key) i.after
    ∙ (rows_of-append key i.front (e ∷ i.back)
        ∙ (ap (λ l. rows_of key i.front ++ l) (rows_of_other key e i.back other)
            ∙ (sym (rows_of-append key i.front i.back) ∙ ap (rows_of key) (sym i.before))))

cmp_cases : (a b : IndexKey) → (cmp_key a b ≡ eq) ⊎ (cmp_key a b ≢ eq)
cmp_cases a b = elim (cmp_key a b) as (λ c. (c ≡ eq) ⊎ (c ≢ eq)) [
  | eq ↦ inl refl
  | lt ↦ inr (λ h. cc)
  | gt ↦ inr (λ h. cc)
]

rows_after :
    (key : IndexKey) (e : IndexEntry) (old new : List IndexEntry)
    → Inserts e old new
    → ((cmp_key e.key key ≡ eq) × Inserts e.row_id (rows_of key old) (rows_of key new))
      ⊎ ((cmp_key e.key key ≢ eq) × (rows_of key new ≡ rows_of key old))
rows_after key e old new i = elim (cmp_cases e.key key) [
  | inl same ↦ inl (same, Inserts-rows_of key e old new i same)
  | inr other ↦ inr (other, rows_of-kept key e old new i other)
]

module _ {S : Type 0} (is_utf8 : List ℕ → Bool) (store : BPlusTreePageStore S) (view : PageView S)
    (laws : IsPageStore store view) where
  -- After an insertion that has fuel and room, the lookup of the inserted key finds the rows that it
  -- found before and, among them, the new one; the lookup of any other key finds the rows it found before.
  pub lookup-insert :
      (s : S) (t : Tree) (e : IndexEntry) (fuel : ℕ) (key : IndexKey)
      → IsIndex is_utf8 store view laws s t
      → IsFitEntry is_utf8 e
      → size t ≤ fuel
      → view.next s + size t + 1 < 2 ^ 64
      → (s' : S) × (new_root : PageId) × (more_fuel : ℕ) × (rows : List RowId) × (new_rows : List
          RowId)
        × (lookup is_utf8 store fuel (root t) key s ≡ (ok rows, s))
        × (insert is_utf8 store fuel (root t) e s ≡ (ok new_root, s'))
        × (lookup is_utf8 store more_fuel new_root key s' ≡ (ok new_rows, s'))
        × (((cmp_key e.key key ≡ eq) × Inserts e.row_id rows new_rows)
            ⊎ ((cmp_key e.key key ≢ eq) × (new_rows ≡ rows)))
  lookup-insert s t e fuel key h fit enough room =
      let (s', t', run, index, added) =
        insert-IsIndex is_utf8 store view laws s t e fuel h fit enough room in
      (
        s',
        root t',
        size t',
        rows_of key (entries_of t),
        rows_of key (entries_of t'),
        lookup-IsIndex is_utf8 store view laws s t key fuel h enough,
        run,
        lookup-IsIndex is_utf8 store view laws s' t' key (size t') index (omega arith),
        rows_after key e (entries_of t) (entries_of t') added,
      )
