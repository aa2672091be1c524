-- ===== src/Index/Scan.antt =====
-- crates/rdbms_index/src/lib.rs: the scan of the entries of one leaf.
use Prim.Native.Nat.Ordering.{lt, eq, gt}
use rdbms.Prelude.{◌≡◌, ◌≢◌, refl, ap, arith, Bool, true, false, List, [], ◌∷◌, ◌++◌, All-map}
use rdbms.Core.{RowId}
use rdbms.Index.Format.{IndexKey, IndexEntry, cmp_key, is_above}
use rdbms.Index.Order.{IsAtMost, cmp_key-IsLinear}
use rdbms.Index.Tree.{scan_entries}
use rdbms.Index.Leaves.{rows_of, rows_of-others, IsAscending}

-- A greater key, and a key that is not below it, is another key.
greater_ne : (a b key : IndexKey) → cmp_key a key ≡ gt → IsAtMost a b → cmp_key b key ≢ eq
unfolding is_above
greater_ne a b key h le same =
    grind
      (arith, cmp_key-IsLinear.flips a key, cmp_key-IsLinear.flips a b, cmp_key-IsLinear.same b key)

-- A scan that meets a greater key has found all rows, those of later leaves included.
pub scan_stopped :
    (key : IndexKey) (es later : List IndexEntry)
    → IsAscending (es ++ later)
    → (scan_entries key es).1 ≡ true
    → rows_of key (es ++ later) ≡ (scan_entries key es).0
unfolding scan_entries rows_of IsAscending
scan_stopped key [] later a h = cc
scan_stopped key (e ∷ es) later a h =
    let rest = scan_stopped key es later a.1 in
    let others : cmp_key e.key key ≡ gt → rows_of key (es ++ later) ≡ [] = λ up.
      rows_of-others key (es ++ later)
        (All-map _ _ (es ++ later) (λ x le. greater_ne e.key x.key key up le) a.0) in
    elim (cmp_key e.key key)
        as (λ c.
          (c ≡ gt → rows_of key (es ++ later) ≡ [])
          → (elim c as (λ _. List RowId × Bool) [
            | lt ↦ scan_entries key es
            | eq ↦ (e.row_id ∷ (scan_entries key es).0, (scan_entries key es).1)
            | gt ↦ ([], true)
          ]).1
            ≡ true
          → elim c as (λ _. List RowId) [
            | eq ↦ e.row_id ∷ rows_of key (es ++ later)
            | lt ↦ rows_of key (es ++ later)
            | gt ↦ rows_of key (es ++ later)
          ]
            ≡ (elim c as (λ _. List RowId × Bool) [
              | lt ↦ scan_entries key es
              | eq ↦ (e.row_id ∷ (scan_entries key es).0, (scan_entries key es).1)
              | gt ↦ ([], true)
            ]).0) [
              | lt ↦ λ o s. rest s
              | eq ↦ λ o s. ap (λ l. e.row_id ∷ l) (rest s)
              | gt ↦ λ o s. o refl
            ]
      others h

pub scan_passed :
    (key : IndexKey) (es : List IndexEntry)
    → (scan_entries key es).1 ≡ false
    → rows_of key es ≡ (scan_entries key es).0
unfolding scan_entries rows_of
scan_passed key [] h = refl
scan_passed key (e ∷ es) h =
    let rest = scan_passed key es in
    elim (cmp_key e.key key)
        as (λ c.
          (elim c as (λ _. List RowId × Bool) [
            | lt ↦ scan_entries key es
            | eq ↦ (e.row_id ∷ (scan_entries key es).0, (scan_entries key es).1)
            | gt ↦ ([], true)
          ]).1
            ≡ false
          → elim c as (λ _. List RowId) [
            | eq ↦ e.row_id ∷ rows_of key es
            | lt ↦ rows_of key es
            | gt ↦ rows_of key es
          ]
            ≡ (elim c as (λ _. List RowId × Bool) [
              | lt ↦ scan_entries key es
              | eq ↦ (e.row_id ∷ (scan_entries key es).0, (scan_entries key es).1)
              | gt ↦ ([], true)
            ]).0) [ lt ↦ λ s. rest s | eq ↦ λ s. ap (λ l. e.row_id ∷ l) (rest s) | gt ↦ λ s. cc ]
      h

pub IsAscending-back : (es later : List IndexEntry) → IsAscending (es ++ later) → IsAscending later
unfolding IsAscending
IsAscending-back [] later h = h
IsAscending-back (e ∷ es) later h = IsAscending-back es later h.1
