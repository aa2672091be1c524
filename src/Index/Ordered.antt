-- ===== src/Index/Ordered.antt =====
-- crates/rdbms_index/src/lib.rs: leaves stay sorted, and separators stay bounds, under an insertion.
use mathlib.Core.List.{append-nil}
use rdbms.Prelude.{
  ℕ, zero, suc, ◌/◌, ◌≡◌, arith, Bool-cases, true, false, inl, inr, Option, none, some, List, [],
  ◌∷◌, ◌++◌, length, take, drop, take-append-drop, All, All-map, leb,
}
use rdbms.Core.{PageId}
use rdbms.Index.Format.{
  max_keys, IndexKey, IndexEntry, compare_entry, is_less, is_above, insert_leaf_entry,
}
use rdbms.Index.Order.{
  is_less_asym, le_trans, compare_entry-IsLinear, IsAtMost, IsAtMost-trans, IsAtMost-refl,
  IsAtMost-of_above,
}
use rdbms.Index.Forest.{
  Tree, leaf_at, node_at, Forest, last, more, Grown, one, two, keys_of, plug, plug_before, put,
  split_forest, cut_leaf, grown_leaf, cut_node, grown_node, ins, ins_in, put-above, put-below,
  ins_in-above, ins_in-below, insert_leaf_entry-after, insert_leaf_entry-before,
}
use rdbms.Index.Every.{
  Every, EveryIn, EveryOf, EveryParts, put-Every, split_forest-Every, ins-Every, ins_in-Every,
  insert_leaf_entry-All,
}

-- A leaf in the order of keys and rows, on which the binary search of the source finds the place.
unfoldable pub IsSorted : List IndexEntry → Type 0
IsSorted [] = Unit
IsSorted (e ∷ es) = All (λ x. is_less (compare_entry x e) ≡ false) es × IsSorted es

abbrev pub Below : IndexKey → Tree → Type 0
Below k t = Every (λ s. IsAtMost s k) (λ e. IsAtMost e.key k) t

abbrev pub Above : IndexKey → Tree → Type 0
Above k t = Every (λ s. IsAtMost k s) (λ e. IsAtMost k e.key) t

abbrev pub AboveIn : IndexKey → Forest → Type 0
AboveIn k f = EveryIn (λ s. IsAtMost k s) (λ e. IsAtMost k e.key) f

-- Leaves are sorted, and a separator bounds the keys on both of its sides.
unfoldable mutual
  pub IsOrdered : Tree → Type 0
  IsOrdered (leaf_at id entries) = IsSorted entries
  IsOrdered (node_at id f) = IsOrderedIn f

  pub IsOrderedIn : Forest → Type 0
  IsOrderedIn (last t) = IsOrdered t
  IsOrderedIn (more t k f) = IsOrdered t × Below k t × AboveIn k f × IsOrderedIn f

abbrev pub IsOrderedOf : Grown → Type 0
IsOrderedOf (one t) = IsOrdered t
IsOrderedOf (two a k b) = IsOrdered a × Below k a × Above k b × IsOrdered b

-- `a` before `b` or equal to it, of entries and so of their keys.
abbrev pub Precedes : IndexEntry → IndexEntry → Type 0
Precedes a b = is_less (compare_entry b a) ≡ false

pub Precedes-IsAtMost : (a b : IndexEntry) → Precedes a b → IsAtMost a.key b.key
unfolding compare_entry is_above
Precedes-IsAtMost a b h = grind (arith, h)

one_IsSorted : (e : IndexEntry) → IsSorted (insert_leaf_entry e [])
unfolding insert_leaf_entry IsSorted
one_IsSorted e = (tt, tt)

insert_leaf_entry-IsSorted :
    (e : IndexEntry) (es : List IndexEntry) → IsSorted es → IsSorted (insert_leaf_entry e es)
unfolding IsSorted
insert_leaf_entry-IsSorted e [] h = one_IsSorted e
insert_leaf_entry-IsSorted e (x ∷ es) h =
    let rest = insert_leaf_entry-IsSorted e es h.1 in
    elim (Bool-cases (is_less (compare_entry x e))) [
      | inl less ↦ rw (insert_leaf_entry-after e x es less) (
        insert_leaf_entry-All (λ k. Unit) (λ y. Precedes x y) e es
            (is_less_asym compare_entry-IsLinear x e less) h.0,
        rest,
      )
      | inr up ↦ rw (insert_leaf_entry-before e x es up) (
        (
          up,
          All-map (λ y. Precedes x y) (λ y. Precedes e y) es
              (λ y p. le_trans compare_entry-IsLinear e x y up p) h.0,
        ),
        h,
      )
    ]

All-parts :
    {A : Type 0} (P : A → Type 0) (front back : List A) (e : A)
    → All P (front ++ e ∷ back)
    → All P front × P e
All-parts P [] back e h = (tt, h.0)
All-parts P (x ∷ front) back e h =
    ((h.0, (All-parts P front back e h.1).0), (All-parts P front back e h.1).1)

IsSorted-head :
    (e : IndexEntry) (es : List IndexEntry) → IsSorted (e ∷ es) → All (λ x. Precedes e x) es
unfolding IsSorted
IsSorted-head e es h = h.0

IsSorted-append :
    (front back : List IndexEntry) (e : IndexEntry)
    → IsSorted (front ++ e ∷ back)
    → IsSorted front × All (λ x. Precedes x e) front × IsSorted (e ∷ back)
unfolding IsSorted
IsSorted-append [] back e h = (tt, tt, h)
IsSorted-append (x ∷ front) back e h =
    let rest = IsSorted-append front back e h.1 in
    let both = All-parts (λ y. Precedes x y) front back e h.0 in
    ((both.0, rest.0), (both.1, rest.1), rest.2)

cut_leaf-IsOrdered :
    (id n : PageId) (front back : List IndexEntry)
    → IsSorted (front ++ back)
    → IsOrderedOf (cut_leaf id n front back)
unfolding cut_leaf IsOrdered Every
cut_leaf-IsOrdered id n front [] h = rw (append-nil front) at h
cut_leaf-IsOrdered id n front (e ∷ back) h =
    let (low, below, high) = IsSorted-append front back e h in
    (
      low,
      All-map _ _ front (λ x p. Precedes-IsAtMost x e p) below,
      (
        IsAtMost-refl e.key,
        All-map _ _ back (λ x p. Precedes-IsAtMost e x p) (IsSorted-head e back high),
      ),
      high,
    )

grown_leaf-IsOrdered :
    (id n : PageId) (es : List IndexEntry) → IsSorted es → IsOrderedOf (grown_leaf id n es)
unfolding grown_leaf IsOrdered
grown_leaf-IsOrdered id n es h =
    elim (leb (length es) max_keys)
      as (λ x. IsOrderedOf (elim x [
        | true ↦ one (leaf_at id es)
        | false ↦ cut_leaf id n (take (length es / 2) es) (drop (length es / 2) es)
      ])) [
        | true ↦ h
        | false ↦ cut_leaf-IsOrdered id n _ _ (rw (take-append-drop (length es / 2) es) h)
      ]

-- What holds of every key and entry gives what follows from it.
mutual
  unfolding Every

  Every-map :
      (P P' : IndexKey → Type 0) (Q Q' : IndexEntry → Type 0) (t : Tree)
      → ((k : IndexKey) → P k → P' k)
      → ((e : IndexEntry) → Q e → Q' e)
      → Every P Q t
      → Every P' Q' t
  Every-map P P' Q Q' (leaf_at id es) f g h = All-map Q Q' es g h
  Every-map P P' Q Q' (node_at id u) f g h = EveryIn-map P P' Q Q' u f g h

  EveryIn-map :
      (P P' : IndexKey → Type 0) (Q Q' : IndexEntry → Type 0) (u : Forest)
      → ((k : IndexKey) → P k → P' k)
      → ((e : IndexEntry) → Q e → Q' e)
      → EveryIn P Q u
      → EveryIn P' Q' u
  EveryIn-map P P' Q Q' (last t) f g h = Every-map P P' Q Q' t f g h
  EveryIn-map P P' Q Q' (more t k u) f g (h, p, r) =
      (Every-map P P' Q Q' t f g h, f k p, EveryIn-map P P' Q Q' u f g r)

AboveIn-trans : (s k : IndexKey) (f : Forest) → IsAtMost s k → AboveIn k f → AboveIn s f
AboveIn-trans s k f le =
    EveryIn-map _ _ _ _ f (λ x. IsAtMost-trans s k x le) (λ e. IsAtMost-trans s k e.key le)

Below-trans : (k s : IndexKey) (t : Tree) → IsAtMost k s → Below k t → Below s t
Below-trans k s t le =
    Every-map _ _ _ _ t (λ x h. IsAtMost-trans x k s h le) (λ e h. IsAtMost-trans e.key k s h le)

abbrev BelowIn : IndexKey → Forest → Type 0
BelowIn k f = EveryIn (λ s. IsAtMost s k) (λ e. IsAtMost e.key k) f

abbrev BelowOf : IndexKey → Grown → Type 0
BelowOf k g = EveryOf (λ s. IsAtMost s k) (λ e. IsAtMost e.key k) g

plug-IsOrdered : (g : Grown) → IsOrderedOf g → IsOrderedIn (plug g)
unfolding plug IsOrdered Every
plug-IsOrdered (one t) h = h
plug-IsOrdered (two a s b) h = h

plug_before-IsOrdered :
    (g : Grown) (k : IndexKey) (f : Forest)
    → IsOrderedOf g
    → BelowOf k g
    → AboveIn k f
    → IsOrderedIn f
    → IsOrderedIn (plug_before g k f)
unfolding plug_before IsOrdered Every
plug_before-IsOrdered (one t) k f h low high rest = (h, low, high, rest)
plug_before-IsOrdered (two a s b) k f (oa, la, hb, ob) low high rest =
    (oa, la, (hb, low.1, AboveIn-trans s k f low.1 high), (ob, low.2, high, rest))

abbrev IsOrderedParts : Option (Forest × IndexKey × Forest) → Type 0
IsOrderedParts none = Unit
IsOrderedParts (some (a, s, b)) = IsOrderedIn a × BelowIn s a × AboveIn s b × IsOrderedIn b

more_parts :
    Tree → IndexKey → Option (Forest × IndexKey × Forest) → Option (Forest × IndexKey × Forest)
more_parts t k none = none
more_parts t k (some (a, s, b)) = some (more t k a, s, b)

more_parts-IsOrdered :
    (t : Tree) (k : IndexKey) (parts : Option (Forest × IndexKey × Forest))
    → IsOrdered t
    → Below k t
    → EveryParts (λ s. IsAtMost k s) (λ e. IsAtMost k e.key) parts
    → IsOrderedParts parts
    → IsOrderedParts (more_parts t k parts)
unfolding more_parts IsOrdered Every
more_parts-IsOrdered t k none o low e h = tt
more_parts-IsOrdered t k (some (a, s, b)) o low (ea, es, eb) (oa, la, hb, ob) =
    ((o, low, ea, oa), (Below-trans k s t es low, es, la), hb, ob)

split_forest-IsOrdered : (n : ℕ) (f : Forest) → IsOrderedIn f → IsOrderedParts (split_forest n f)
unfolding split_forest IsOrdered Every more_parts
split_forest-IsOrdered n (last t) h = tt
split_forest-IsOrdered zero (more t k f) h = h
split_forest-IsOrdered (suc n) (more t k f) (o, low, high, rest) =
    more_parts-IsOrdered t k (split_forest n f) o low (split_forest-Every _ _ n f high)
      (split_forest-IsOrdered n f rest)

cut_node-IsOrdered :
    (id n : PageId) (f : Forest) (parts : Option (Forest × IndexKey × Forest))
    → IsOrderedIn f
    → IsOrderedParts parts
    → IsOrderedOf (cut_node id n f parts)
unfolding IsOrdered Every
cut_node-IsOrdered id n f none h k = h
cut_node-IsOrdered id n f (some (a, s, b)) h (oa, la, hb, ob) = (oa, la, hb, ob)

grown_node-IsOrdered :
    (id n : PageId) (f : Forest) → IsOrderedIn f → IsOrderedOf (grown_node id n f)
unfolding grown_node IsOrdered
grown_node-IsOrdered id n f h =
    let parts = split_forest-IsOrdered (length (keys_of f) / 2) f h in
    elim (leb (length (keys_of f)) max_keys)
      as (λ x. IsOrderedOf (elim x [
        | true ↦ one (node_at id f)
        | false ↦ cut_node id n f (split_forest (length (keys_of f) / 2) f)
      ])) [ true ↦ h | false ↦ cut_node-IsOrdered id n f _ h parts ]

put_last-IsOrdered :
    (key : IndexKey) (g : Grown) (t : Tree) → IsOrderedOf g → IsOrderedIn (put key g (last t))
unfolding put
put_last-IsOrdered key g t h = plug-IsOrdered g h

above_put :
    (e : IndexEntry) (n : ℕ) (k : IndexKey) (f : Forest)
    → IsAtMost k e.key
    → AboveIn k f
    → AboveIn k (put e.key (ins_in e n f).0 f)
above_put e n k f le h =
    put-Every _ _ e.key (ins_in e n f).0 f (ins_in-Every _ _ (λ x p. p) e n f le h) h

mutual
  unfolding ins IsOrdered

  -- A tree in order stays so, or is split into two with a separator that bounds both.
  pub ins-IsOrdered : (e : IndexEntry) (n : ℕ) (t : Tree) → IsOrdered t → IsOrderedOf (ins e n t).0
  ins-IsOrdered e n (leaf_at id es) h =
      grown_leaf-IsOrdered id n _ (insert_leaf_entry-IsSorted e es h)
  ins-IsOrdered e n (node_at id f) h =
      grown_node-IsOrdered id (ins_in e n f).1 _ (put-IsOrdered e n f h)

  put-IsOrdered :
      (e : IndexEntry) (n : ℕ) (f : Forest)
      → IsOrderedIn f
      → IsOrderedIn (put e.key (ins_in e n f).0 f)
  put-IsOrdered e n (last t) h = put_last-IsOrdered e.key (ins e n t).0 t (ins-IsOrdered e n t h)
  put-IsOrdered e n (more t k f) (o, low, high, rest) =
      let here = ins-IsOrdered e n t o in
      let there = put-IsOrdered e n f rest in
      elim (Bool-cases (is_above e.key k)) [
        | inl up ↦
            rw (ins_in-above e t k f n up, put-above e t k f (ins_in e n f).0 up)
              (o, low, above_put e n k f (IsAtMost-of_above e.key k up) high, there)
        | inr down ↦
            rw (ins_in-below e t k f n down, put-below e t k f (ins e n t).0 down)
              (plug_before-IsOrdered (ins e n t).0 k f here
                (ins-Every _ _ (λ x p. p) e n t down low) high rest)
      ]
