-- ===== src/Index/Order.antt =====
-- crates/rdbms_index/src/lib.rs: the orders of the keys and of the entries are linear.
use Prim.Native.Nat.{compare, Ordering}
use Prim.Native.Nat.Ordering.{lt, eq, gt}
use rdbms.Prelude.{◌≡◌, refl, ap, arith, true, false, [], ◌∷◌}
use rdbms.Core.{RowId}
use rdbms.Catalog.Format.{Text}
use rdbms.Index.Format.{
  IndexKey, integer, text, IndexEntry, then_cmp, cmp_int, cmp_text, cmp_key, cmp_row, compare_entry,
  is_less, is_above,
}

-- `Ordering::reverse`
abbrev pub reverse : Ordering → Ordering
reverse lt = gt
reverse eq = eq
reverse gt = lt

pub record IsLinear {K : Type 0} (cmp : K → K → Ordering) : Type 0 where
  pub flips : (a b : K) → cmp b a ≡ reverse (cmp a b)
  pub same : (a b : K) → cmp a b ≡ eq → a ≡ b
  pub trans : (a b c : K) → cmp a b ≡ lt → cmp b c ≡ lt → cmp a c ≡ lt

compare-IsLinear : IsLinear compare
compare-IsLinear = record {
  flips = λ a b. ground arith;
  same = λ a b. ground arith;
  trans = λ a b c. ground arith;
}

reverse-then_cmp : (a b : Ordering) → reverse (then_cmp a b) ≡ then_cmp (reverse a) (reverse b)
reverse-then_cmp lt b = refl
reverse-then_cmp eq b = refl
reverse-then_cmp gt b = refl

then_cmp-eq : (a b : Ordering) → then_cmp a b ≡ eq → (a ≡ eq) × (b ≡ eq)
then_cmp-eq lt b h = cc
then_cmp-eq eq b h = (refl, h)
then_cmp-eq gt b h = cc

-- Two components in order: where the first ones agree, the second ones decide.
module _ {A B : Type 0} {c : A → A → Ordering} {d : B → B → Ordering} (p : IsLinear c)
    (q : IsLinear d) where
  pub lex_trans :
      (a a' a'' : A) (b b' b'' : B)
      → then_cmp (c a a') (d b b') ≡ lt
      → then_cmp (c a' a'') (d b' b'') ≡ lt
      → then_cmp (c a a'') (d b b'') ≡ lt
  lex_trans a a' a'' b b' b'' h k =
      grind (arith, p.same a a', p.same a' a'', p.trans a a' a'', q.trans b b' b'')

  pub lex-flips :
      (a a' : A) (b b' : B) → then_cmp (c a' a) (d b' b) ≡ reverse (then_cmp (c a a') (d b b'))
  lex-flips a a' b b' = rw (p.flips a a', q.flips b b', reverse-then_cmp (c a a') (d b b')) refl

cmp_int-IsLinear : IsLinear cmp_int
unfolding cmp_int
cmp_int-IsLinear = record {
  flips = λ a b. ground arith;
  same = λ a b. ground arith;
  trans = λ a b c. ground arith;
}

cmp_text-flips : (a b : Text) → cmp_text b a ≡ reverse (cmp_text a b)
unfolding cmp_text
cmp_text-flips [] [] = refl
cmp_text-flips [] (y ∷ b) = refl
cmp_text-flips (x ∷ a) [] = refl
cmp_text-flips (x ∷ a) (y ∷ b) =
    rw
      (
        compare-IsLinear.flips x y,
        cmp_text-flips a b,
        reverse-then_cmp (compare x y) (cmp_text a b),
      )
      refl

cmp_text-same : (a b : Text) → cmp_text a b ≡ eq → a ≡ b
unfolding cmp_text
cmp_text-same [] [] h = refl
cmp_text-same [] (y ∷ b) h = cc
cmp_text-same (x ∷ a) [] h = cc
cmp_text-same (x ∷ a) (y ∷ b) h =
    let both = then_cmp-eq (compare x y) (cmp_text a b) h in
    rw (compare-IsLinear.same x y both.0, cmp_text-same a b both.1) refl

cmp_text_trans : (a b c : Text) → cmp_text a b ≡ lt → cmp_text b c ≡ lt → cmp_text a c ≡ lt
unfolding cmp_text
cmp_text_trans [] [] c h k = k
cmp_text_trans [] (y ∷ b) [] h k = cc
cmp_text_trans [] (y ∷ b) (z ∷ c) h k = refl
cmp_text_trans (x ∷ a) [] c h k = cc
cmp_text_trans (x ∷ a) (y ∷ b) [] h k = cc
cmp_text_trans (x ∷ a) (y ∷ b) (z ∷ c) h k =
    let rest = cmp_text_trans a b c in
    ground (arith, compare-IsLinear.same x y, compare-IsLinear.same y z, rest)

cmp_text-IsLinear : IsLinear cmp_text
cmp_text-IsLinear = record { flips = cmp_text-flips; same = cmp_text-same; trans = cmp_text_trans }

cmp_key-flips : (a b : IndexKey) → cmp_key b a ≡ reverse (cmp_key a b)
unfolding cmp_key
cmp_key-flips (integer a) (integer b) = cmp_int-IsLinear.flips a b
cmp_key-flips (integer a) (text t) = refl
cmp_key-flips (text s) (integer b) = refl
cmp_key-flips (text s) (text t) = cmp_text-flips s t

cmp_key-same : (a b : IndexKey) → cmp_key a b ≡ eq → a ≡ b
unfolding cmp_key
cmp_key-same (integer a) (integer b) h = ap integer (cmp_int-IsLinear.same a b h)
cmp_key-same (integer a) (text t) h = cc
cmp_key-same (text s) (integer b) h = cc
cmp_key-same (text s) (text t) h = ap text (cmp_text-same s t h)

cmp_key_trans : (a b c : IndexKey) → cmp_key a b ≡ lt → cmp_key b c ≡ lt → cmp_key a c ≡ lt
unfolding cmp_key
cmp_key_trans (integer a) (integer b) (integer c) h k = cmp_int-IsLinear.trans a b c h k
cmp_key_trans (text a) (text b) (text c) h k = cmp_text_trans a b c h k
cmp_key_trans (integer a) b (text c) h k = refl
cmp_key_trans (integer a) (text b) (integer c) h k = cc
cmp_key_trans (text a) (integer b) c h k = cc
cmp_key_trans (text a) (text b) (integer c) h k = cc

pub cmp_key-IsLinear : IsLinear cmp_key
cmp_key-IsLinear = record { flips = cmp_key-flips; same = cmp_key-same; trans = cmp_key_trans }

ap_row : {a b : RowId} → a.page_id ≡ b.page_id → a.slot_id ≡ b.slot_id → a ≡ b
ap_row p q = cc

ap_entry : {a b : IndexEntry} → a.key ≡ b.key → a.row_id ≡ b.row_id → a ≡ b
ap_entry p q = cc

-- A row id with the smaller page, or on the same page with the smaller slot, comes first.
cmp_row-IsLinear : IsLinear cmp_row
unfolding cmp_row
cmp_row-IsLinear = record {
  flips =
      λ a b. lex-flips compare-IsLinear compare-IsLinear a.page_id b.page_id a.slot_id b.slot_id;
  same = λ a b h.
      let both = then_cmp-eq (compare a.page_id b.page_id) (compare a.slot_id b.slot_id) h in
      ap_row (compare-IsLinear.same a.page_id b.page_id both.0)
        (compare-IsLinear.same a.slot_id b.slot_id both.1);
  trans = λ a b c.
      lex_trans compare-IsLinear compare-IsLinear a.page_id b.page_id c.page_id a.slot_id b.slot_id
        c.slot_id;
}

pub compare_entry-IsLinear : IsLinear compare_entry
unfolding compare_entry
compare_entry-IsLinear = record {
  flips = λ a b. lex-flips cmp_key-IsLinear cmp_row-IsLinear a.key b.key a.row_id b.row_id;
  same = λ a b h.
      let both = then_cmp-eq (cmp_key a.key b.key) (cmp_row a.row_id b.row_id) h in
      ap_entry (cmp_key-same a.key b.key both.0) (cmp_row-IsLinear.same a.row_id b.row_id both.1);
  trans = λ a b c.
      lex_trans cmp_key-IsLinear cmp_row-IsLinear a.key b.key c.key a.row_id b.row_id c.row_id;
}

module _ {K : Type 0} {cmp : K → K → Ordering} (l : IsLinear cmp) where
  -- What is below b is not above it.
  pub is_less_asym : (a b : K) → is_less (cmp a b) ≡ true → is_less (cmp b a) ≡ false
  is_less_asym a b h = grind (arith, l.flips a b)

  -- a ≤ b ≤ c gives a ≤ c, where a ≤ b is that b is not below a.
  pub le_trans :
      (a b c : K)
      → is_less (cmp b a) ≡ false
      → is_less (cmp c b) ≡ false
      → is_less (cmp c a) ≡ false
  le_trans a b c h k =
      grind (arith, l.flips a b, l.flips b c, l.flips a c, l.same a b, l.same b c, l.trans a b c)

abbrev pub IsAtMost : IndexKey → IndexKey → Type 0
IsAtMost a b = is_above a b ≡ false

pub IsAtMost-trans : (a b c : IndexKey) → IsAtMost a b → IsAtMost b c → IsAtMost a c
unfolding is_above
IsAtMost-trans a b c h k = le_trans cmp_key-IsLinear a b c h k

pub IsAtMost-refl : (a : IndexKey) → IsAtMost a a
unfolding is_above
IsAtMost-refl a = grind (arith, cmp_key-flips a a)

pub IsAtMost-of_above : (a b : IndexKey) → is_above a b ≡ true → IsAtMost b a
unfolding is_above
IsAtMost-of_above a b h = is_less_asym cmp_key-IsLinear b a h
