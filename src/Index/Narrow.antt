-- ===== src/Index/Narrow.antt =====
-- crates/rdbms_index/src/lib.rs: no node takes more than the most keys, and an insertion allocates at
-- most one page for each node on its way.
use rdbms.Prelude.{
  ℕ, zero, suc, ◌+◌, ◌/◌, ◌≤◌, ◌≡◌, refl, ap, ◌∙◌, arith, Bool-cases, true, false, inl, inr, Option,
  none, some, List, [], ◌∷◌, length, take, drop, leb, length-take, length-drop,
}
use rdbms.Core.{PageId}
use rdbms.Index.Format.{
  max_keys, IndexKey, IndexEntry, is_above, insert_leaf_entry, is_less, compare_entry,
}
use rdbms.Index.Forest.{
  Tree, leaf_at, node_at, Forest, last, more, Grown, one, two, keys_of, plug, plug_before, put,
  split_forest, cut_leaf, grown_leaf, cut_node, grown_node, taken, ins, ins_in, put-above,
  put-below, ins_in-above, ins_in-below, size, size_in, insert_leaf_entry-after,
  insert_leaf_entry-before,
}
use rdbms.Index.Chosen.{split_forest-Cuts}

unfoldable mutual
  pub IsNarrow : Tree → Type 0
  IsNarrow (leaf_at id entries) = length entries ≤ max_keys
  IsNarrow (node_at id f) = (length (keys_of f) ≤ max_keys) × AreNarrow f

  pub AreNarrow : Forest → Type 0
  AreNarrow (last t) = IsNarrow t
  AreNarrow (more t k f) = IsNarrow t × AreNarrow f

abbrev pub GrownIsNarrow : Grown → Type 0
GrownIsNarrow (one t) = IsNarrow t
GrownIsNarrow (two a k b) = IsNarrow a × IsNarrow b

pub length-insert_leaf_entry :
    (e : IndexEntry) (es : List IndexEntry) → length (insert_leaf_entry e es) ≡ suc (length es)
unfolding insert_leaf_entry
length-insert_leaf_entry e [] = refl
length-insert_leaf_entry e (x ∷ es) =
    let rest = length-insert_leaf_entry e es in
    elim (Bool-cases (is_less (compare_entry x e))) [
      | inl less ↦ rw (insert_leaf_entry-after e x es less) (ap suc rest)
      | inr up ↦ rw (insert_leaf_entry-before e x es up) refl
    ]

cut_leaf-IsNarrow :
    (id n : PageId) (front back : List IndexEntry)
    → length front ≤ max_keys
    → length back ≤ max_keys
    → GrownIsNarrow (cut_leaf id n front back)
unfolding cut_leaf IsNarrow
cut_leaf-IsNarrow id n front [] h k = h
cut_leaf-IsNarrow id n front (e ∷ back) h k = (h, k)

leaf_IsNarrow :
    (id : PageId) (es : List IndexEntry)
    → leb (length es) max_keys ≡ true
    → IsNarrow (leaf_at id es)
unfolding IsNarrow
leaf_IsNarrow id es h = ground (arith, h)

pub grown_leaf-long :
    (id n : PageId) (es : List IndexEntry)
    → leb (length es) max_keys ≡ false
    → grown_leaf id n es ≡ cut_leaf id n (take (length es / 2) es) (drop (length es / 2) es)
unfolding grown_leaf
grown_leaf-long id n es h =
    ap
      (λ b. elim b [
        | true ↦ one (leaf_at id es)
        | false ↦ cut_leaf id n (take (length es / 2) es) (drop (length es / 2) es)
      ])
      h

pub grown_leaf-short :
    (id n : PageId) (es : List IndexEntry)
    → leb (length es) max_keys ≡ true
    → grown_leaf id n es ≡ one (leaf_at id es)
unfolding grown_leaf
grown_leaf-short id n es h =
    ap
      (λ b. elim b [
        | true ↦ one (leaf_at id es)
        | false ↦ cut_leaf id n (take (length es / 2) es) (drop (length es / 2) es)
      ])
      h

pub grown_node-short :
    (id n : PageId) (f : Forest)
    → leb (length (keys_of f)) max_keys ≡ true
    → grown_node id n f ≡ one (node_at id f)
unfolding grown_node
grown_node-short id n f h =
    ap
      (λ b. elim b [
        | true ↦ one (node_at id f)
        | false ↦ cut_node id n f (split_forest (length (keys_of f) / 2) f)
      ])
      h

pub grown_node-long :
    (id n : PageId) (f a b : Forest) (s : IndexKey)
    → leb (length (keys_of f)) max_keys ≡ false
    → split_forest (length (keys_of f) / 2) f ≡ some (a, s, b)
    → grown_node id n f ≡ two (node_at id a) s (node_at n b)
unfolding grown_node
grown_node-long id n f a b s h c =
    ap
      (λ b. elim b [
        | true ↦ one (node_at id f)
        | false ↦ cut_node id n f (split_forest (length (keys_of f) / 2) f)
      ])
      h
    ∙ ap (cut_node id n f) c

grown_leaf-IsNarrow :
    (id n : PageId) (es : List IndexEntry)
    → length es ≤ max_keys + 1
    → GrownIsNarrow (grown_leaf id n es)
unfolding IsNarrow
grown_leaf-IsNarrow id n es h = elim (Bool-cases (leb (length es) max_keys)) [
  | inl short ↦ rw (grown_leaf-short id n es short) (leaf_IsNarrow id es short)
  | inr long ↦ rw (grown_leaf-long id n es long) (
      cut_leaf-IsNarrow id n _ _ (omega (arith, length-take (length es / 2) es (omega arith), h))
        (ground (arith, length-drop (length es / 2) es, h, long)))
]

plug-AreNarrow :
    (g : Grown) → GrownIsNarrow g → AreNarrow (plug g) × (length (keys_of (plug g)) ≤ 1)
unfolding plug IsNarrow keys_of
plug-AreNarrow (one t) h = (h, omega arith)
plug-AreNarrow (two a s b) h = (h, omega arith)

plug_before-AreNarrow :
    (g : Grown) (k : IndexKey) (f : Forest)
    → GrownIsNarrow g
    → AreNarrow f
    → AreNarrow (plug_before g k f)
      × (length (keys_of (plug_before g k f)) ≤ length (keys_of f) + 2)
unfolding plug_before IsNarrow keys_of
plug_before-AreNarrow (one t) k f h r = ((h, r), omega arith)
plug_before-AreNarrow (two a s b) k f h r = ((h.0, (h.1, r)), omega arith)

abbrev PartsAreNarrow : Option (Forest × IndexKey × Forest) → Type 0
PartsAreNarrow none = Unit
PartsAreNarrow (some (a, s, b)) = AreNarrow a × AreNarrow b

split_forest-AreNarrow : (n : ℕ) (f : Forest) → AreNarrow f → PartsAreNarrow (split_forest n f)
unfolding split_forest IsNarrow
split_forest-AreNarrow n (last t) h = tt
split_forest-AreNarrow zero (more t k f) h = h
split_forest-AreNarrow (suc n) (more t k f) h =
    let rest = split_forest-AreNarrow n f h.1 in
    elim (split_forest n f)
        as (λ x.
          PartsAreNarrow x
          → PartsAreNarrow (elim x [ none ↦ none | some (a, s, b) ↦ some (more t k a, s, b) ])) [
            | none ↦ λ _. tt
            | some (a, s, b) ↦ λ r. ((h.0, r.0), r.1)
          ]
      rest

grown_node-IsNarrow :
    (id n : PageId) (f : Forest)
    → AreNarrow f
    → length (keys_of f) ≤ max_keys + 1
    → GrownIsNarrow (grown_node id n f)
unfolding IsNarrow
grown_node-IsNarrow id n f h few = elim (Bool-cases (leb (length (keys_of f)) max_keys)) [
  | inl short ↦ rw (grown_node-short id n f short) (ground (arith, short), h)
  | inr long ↦
      let (a, s, b, c) = split_forest-Cuts (length (keys_of f) / 2) f (ground (arith, long)) in
      let parts = rw c.cut at (split_forest-AreNarrow (length (keys_of f) / 2) f h) in
      rw (grown_node-long id n f a b s long c.cut) (
        (
          omega (
            arith,
            ap length c.keys_left,
            length-take (length (keys_of f) / 2) (keys_of f) (omega arith),
            few,
          ),
          parts.0,
        ),
        (
          ground (
            arith,
            ap length c.keys_right,
            length-drop (suc (length (keys_of f) / 2)) (keys_of f),
            few,
          ),
          parts.1,
        ),
      )
]

put_last-AreNarrow :
    (e : IndexEntry) (g : Grown) (t : Tree)
    → GrownIsNarrow g
    → AreNarrow (put e.key g (last t))
      × (length (keys_of (put e.key g (last t))) ≤ length (keys_of (last t)) + 1)
unfolding put keys_of
put_last-AreNarrow e g t h = (let p = plug-AreNarrow g h in (p.0, omega (arith, p.1)))

more_narrow :
    (t : Tree) (k : IndexKey) (f f' : Forest)
    → IsNarrow t
    → AreNarrow f' × (length (keys_of f') ≤ length (keys_of f) + 1)
    → AreNarrow (more t k f') × (length (keys_of (more t k f')) ≤ length (keys_of (more t k f)) + 1)
unfolding IsNarrow keys_of
more_narrow t k f f' h p = ((h, p.0), omega (arith, p.1))

before_narrow :
    (t : Tree) (k : IndexKey) (f f' : Forest)
    → AreNarrow f' × (length (keys_of f') ≤ length (keys_of f) + 2)
    → AreNarrow f' × (length (keys_of f') ≤ length (keys_of (more t k f)) + 1)
unfolding keys_of
before_narrow t k f f' p = (p.0, omega (arith, p.1))

mutual
  unfolding ins IsNarrow

  pub ins-IsNarrow : (e : IndexEntry) (n : ℕ) (t : Tree) → IsNarrow t → GrownIsNarrow (ins e n t).0
  ins-IsNarrow e n (leaf_at id es) h =
      grown_leaf-IsNarrow id n _ (omega (arith, length-insert_leaf_entry e es, h))
  ins-IsNarrow e n (node_at id f) (few, h) =
      let (narrow, longer) = put-AreNarrow e n f h in
      grown_node-IsNarrow id (ins_in e n f).1 _ narrow (omega (arith, longer, few))

  pub put-AreNarrow :
      (e : IndexEntry) (n : ℕ) (f : Forest)
      → AreNarrow f
      → AreNarrow (put e.key (ins_in e n f).0 f)
        × (length (keys_of (put e.key (ins_in e n f).0 f)) ≤ length (keys_of f) + 1)
  put-AreNarrow e n (last t) h = put_last-AreNarrow e (ins e n t).0 t (ins-IsNarrow e n t h)
  put-AreNarrow e n (more t k f) (ht, hf) =
      let here = ins-IsNarrow e n t ht in
      let there = put-AreNarrow e n f hf in
      elim (Bool-cases (is_above e.key k)) [
        | inl up ↦
            rw (ins_in-above e t k f n up, put-above e t k f (ins_in e n f).0 up)
              (more_narrow t k f _ ht there)
        | inr down ↦
            rw (ins_in-below e t k f n down, put-below e t k f (ins e n t).0 down)
              (before_narrow t k f _ (plug_before-AreNarrow (ins e n t).0 k f here hf))
      ]

taken-le : (g : Grown) (n : ℕ) → taken g n ≤ n + 1
taken-le (one t) n = omega arith
taken-le (two a k b) n = omega arith

mutual
  unfolding ins size

  pub ins-taken : (e : IndexEntry) (n : ℕ) (t : Tree) → (ins e n t).1 ≤ n + size t
  ins-taken e n (leaf_at id es) = taken-le (grown_leaf id n (insert_leaf_entry e es)) n
  ins-taken e n (node_at id f) = omega (
    arith,
    taken-le (grown_node id (ins_in e n f).1 (put e.key (ins_in e n f).0 f)) (ins_in e n f).1,
    ins_in-taken e n f,
  )

  pub ins_in-taken : (e : IndexEntry) (n : ℕ) (f : Forest) → (ins_in e n f).1 ≤ n + size_in f
  ins_in-taken e n (last t) = ins-taken e n t
  ins_in-taken e n (more t k f) =
      let here = ins-taken e n t in
      let there = ins_in-taken e n f in
      elim (Bool-cases (is_above e.key k)) [
        | inl up ↦ rw (ins_in-above e t k f n up) (omega (arith, there))
        | inr down ↦ rw (ins_in-below e t k f n down) (omega (arith, here))
      ]
