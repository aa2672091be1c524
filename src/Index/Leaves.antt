-- ===== src/Index/Leaves.antt =====
-- crates/rdbms_index/src/lib.rs: the chain of the leaves, the order of all entries, and the rows that a
-- scan of them finds.
use Prim.Native.Nat.Ordering.{lt, eq, gt}
use mathlib.Core.List.{append_assoc, append-nil}
use rdbms.Prelude.{
  ◌≤◌, ◌≡◌, ◌≢◌, refl, sym, ap, ◌∙◌, arith, List, [], ◌∷◌, ◌++◌, length, length-append, All,
  All-append, All-map,
}
use rdbms.Core.{PageId, RowId}
use rdbms.Index.Format.{IndexKey, IndexEntry, cmp_key}
use rdbms.Index.Order.{IsAtMost, IsAtMost-trans}
use rdbms.Index.Forest.{
  Tree, leaf_at, node_at, Forest, last, more, entries_of, entries_in, size, size_in,
}
use rdbms.Index.Every.{Every, EveryIn}
use rdbms.Index.Ordered.{IsSorted, IsOrdered, IsOrderedIn, Precedes-IsAtMost}

-- The rows of the entries with a key.
unfoldable pub rows_of : IndexKey → List IndexEntry → List RowId
rows_of key [] = []
rows_of key (e ∷ es) = elim (cmp_key e.key key) [
  | eq ↦ e.row_id ∷ rows_of key es
  | lt ↦ rows_of key es
  | gt ↦ rows_of key es
]

pub rows_of-append :
    (key : IndexKey) (es es' : List IndexEntry)
    → rows_of key (es ++ es') ≡ rows_of key es ++ rows_of key es'
unfolding rows_of
rows_of-append key [] es' = refl
rows_of-append key (e ∷ es) es' =
    let rest = rows_of-append key es es' in
    elim (cmp_key e.key key)
      as (λ c.
        elim c as (λ _. List RowId) [
          | eq ↦ e.row_id ∷ rows_of key (es ++ es')
          | lt ↦ rows_of key (es ++ es')
          | gt ↦ rows_of key (es ++ es')
        ]
        ≡ elim c as (λ _. List RowId) [
          | eq ↦ e.row_id ∷ rows_of key es
          | lt ↦ rows_of key es
          | gt ↦ rows_of key es
        ]
          ++ rows_of key es') [ eq ↦ ap (λ l. e.row_id ∷ l) rest | lt ↦ rest | gt ↦ rest ]

pub rows_of-others :
    (key : IndexKey) (es : List IndexEntry)
    → All (λ (e : IndexEntry). cmp_key e.key key ≢ eq) es
    → rows_of key es ≡ []
unfolding rows_of
rows_of-others key [] h = refl
rows_of-others key (e ∷ es) h =
    let rest = rows_of-others key es h.1 in
    elim (cmp_key e.key key)
        as (λ c.
          c ≢ eq
          → elim c as (λ _. List RowId) [
            | eq ↦ e.row_id ∷ rows_of key es
            | lt ↦ rows_of key es
            | gt ↦ rows_of key es
          ]
            ≡ []) [ eq ↦ λ n. absurd (n refl) | lt ↦ λ n. rest | gt ↦ λ n. rest ]
      h.0

-- Entries in the order of their keys.
unfoldable pub IsAscending : List IndexEntry → Type 0
IsAscending [] = Unit
IsAscending (e ∷ es) = All (λ x. IsAtMost e.key x.key) es × IsAscending es

IsAscending-append :
    (k : IndexKey) (es es' : List IndexEntry)
    → IsAscending es
    → IsAscending es'
    → All (λ x. IsAtMost x.key k) es
    → All (λ x. IsAtMost k x.key) es'
    → IsAscending (es ++ es')
unfolding IsAscending
IsAscending-append k [] es' a b low high = b
IsAscending-append k (e ∷ es) es' a b low high = (
  All-append _ es es' a.0 (All-map _ _ es' (λ x h. IsAtMost-trans e.key k x.key low.0 h) high),
  IsAscending-append k es es' a.1 b low.1 high,
)

IsSorted-IsAscending : (es : List IndexEntry) → IsSorted es → IsAscending es
unfolding IsSorted IsAscending
IsSorted-IsAscending [] h = tt
IsSorted-IsAscending (e ∷ es) h =
    (All-map _ _ es (λ x p. Precedes-IsAtMost e x p) h.0, IsSorted-IsAscending es h.1)

mutual
  unfolding Every entries_of

  pub Every-All :
      (P : IndexKey → Type 0) (Q : IndexEntry → Type 0) (t : Tree)
      → Every P Q t
      → All Q (entries_of t)
  Every-All P Q (leaf_at id es) h = h
  Every-All P Q (node_at id f) h = EveryIn-All P Q f h

  pub EveryIn-All :
      (P : IndexKey → Type 0) (Q : IndexEntry → Type 0) (f : Forest)
      → EveryIn P Q f
      → All Q (entries_in f)
  EveryIn-All P Q (last t) h = Every-All P Q t h
  EveryIn-All P Q (more t k f) h = All-append Q _ _ (Every-All P Q t h.0) (EveryIn-All P Q f h.2)

mutual
  unfolding IsOrdered entries_of

  pub IsOrdered-IsAscending : (t : Tree) → IsOrdered t → IsAscending (entries_of t)
  IsOrdered-IsAscending (leaf_at id es) h = IsSorted-IsAscending es h
  IsOrdered-IsAscending (node_at id f) h = IsOrderedIn-IsAscending f h

  pub IsOrderedIn-IsAscending : (f : Forest) → IsOrderedIn f → IsAscending (entries_in f)
  IsOrderedIn-IsAscending (last t) h = IsOrdered-IsAscending t h
  IsOrderedIn-IsAscending (more t k f) (o, low, high, rest) =
      IsAscending-append k _ _ (IsOrdered-IsAscending t o) (IsOrderedIn-IsAscending f rest)
        (Every-All _ _ t low) (EveryIn-All _ _ f high)

-- The leaves, from the left to the right.
pub record LeafPage : Type 0 where
  pub page : PageId
  pub entries : List IndexEntry

unfoldable mutual
  pub leaves_of : Tree → List LeafPage
  leaves_of (leaf_at id es) = record { page = id; entries = es } ∷ []
  leaves_of (node_at id f) = leaves_in f

  pub leaves_in : Forest → List LeafPage
  leaves_in (last t) = leaves_of t
  leaves_in (more t k f) = leaves_of t ++ leaves_in f

unfoldable pub flat : List LeafPage → List IndexEntry
flat [] = []
flat (l ∷ ls) = l.entries ++ flat ls

pub flat-append : (ls ls' : List LeafPage) → flat (ls ++ ls') ≡ flat ls ++ flat ls'
unfolding flat
flat-append [] ls' = refl
flat-append (l ∷ ls) ls' =
    ap (λ x. l.entries ++ x) (flat-append ls ls')
    ∙ sym (append_assoc l.entries (flat ls) (flat ls'))

ap_append : {A : Type 0} {xs xs' ys ys' : List A} → xs ≡ xs' → ys ≡ ys' → xs ++ ys ≡ xs' ++ ys'
ap_append p q = rw (p, q) refl

mutual
  unfolding leaves_of flat entries_of

  pub flat-leaves_of : (t : Tree) → flat (leaves_of t) ≡ entries_of t
  flat-leaves_of (leaf_at id es) = append-nil es
  flat-leaves_of (node_at id f) = flat-leaves_in f

  flat-leaves_in : (f : Forest) → flat (leaves_in f) ≡ entries_in f
  flat-leaves_in (last t) = flat-leaves_of t
  flat-leaves_in (more t k f) =
      flat-append (leaves_of t) (leaves_in f) ∙ ap_append (flat-leaves_of t) (flat-leaves_in f)

mutual
  unfolding leaves_of size

  pub length-leaves_of : (t : Tree) → length (leaves_of t) ≤ size t
  length-leaves_of (leaf_at id es) = omega arith
  length-leaves_of (node_at id f) = omega (arith, length-leaves_in f)

  length-leaves_in : (f : Forest) → length (leaves_in f) ≤ size_in f
  length-leaves_in (last t) = length-leaves_of t
  length-leaves_in (more t k f) =
      omega
        (arith, length-append (leaves_of t) (leaves_in f), length-leaves_of t, length-leaves_in f)
