-- ===== src/Extension/Kept.antt =====
-- Loading an extension adds its functions and changes no other.
use rdbms.Prelude.{
  ◌≡◌, refl, ◌∙◌, arith, true, false, some, List, [], ◌∷◌, All, ==_refl, inl, inr, Bool-cases,
}
use rdbms.Core.{DbResult, DbError, ok, err, panicked, extension, reject}
use rdbms.Core
use rdbms.Exec.{bind_inv, gets, modify}
use rdbms.Catalog.Format.{Text, text_eq}
use rdbms.Catalog.Meta.{is_some}
use rdbms.Catalog.Consistent.{text_eq_sound}
use rdbms.Extension.Stdlib.{uppercase, to_upper}
use rdbms.Extension.Registry.{
  to_lower, Value, call_scalar, ScalarFunction, ExtensionDescriptor, ExtensionRegistry,
  normalize_name, get, insert, is_loaded, scalar_function, ensure_new, insert_all,
  abi_version_supported,
}
use rdbms.Extension.Load.{with_descriptor, load_new, load}

text_eq_refl : (a : Text) → text_eq a a ≡ true
unfolding text_eq
text_eq_refl [] = refl
text_eq_refl (x ∷ xs) = rw (==_refl x) (text_eq_refl xs)

module _ {A : Type 0} where
  get-insert_self : (key : Text) (a : A) (m : List (Text × A)) → get key (insert key a m) ≡ some a
  unfolding get insert
  get-insert_self key a [] = rw (text_eq_refl key) refl
  get-insert_self key a ((k, b) ∷ m) = elim (Bool-cases (text_eq k key)) [
    | inl y ↦ rw (y, y) refl
    | inr n ↦ rw (n, n) (get-insert_self key a m)
  ]

  get-insert_other :
      (key other : Text) (a : A) (m : List (Text × A))
      → text_eq key other ≡ false
      → get other (insert key a m) ≡ get other m
  unfolding get insert
  get-insert_other key other a [] h = rw h refl
  get-insert_other key other a ((k, b) ∷ m) h = elim (Bool-cases (text_eq k key)) [
    | inl y ↦ let same = text_eq_sound k key y in rw (y, same, h) refl
    | inr n ↦ rw n (elim (Bool-cases (text_eq k other)) [
      | inl y ↦ rw y refl
      | inr m' ↦ rw m' (get-insert_other key other a m h)
    ])
  ]

abbrev IsOther : Text → ScalarFunction → Type 0
IsOther key f = text_eq (normalize_name f.name) key ≡ false

get-insert_all :
    (key : Text) (functions : List ScalarFunction) (m : List (Text × ScalarFunction))
    → All (IsOther key) functions
    → get key (insert_all functions m) ≡ get key m
unfolding insert_all
get-insert_all key [] m h = refl
get-insert_all key (f ∷ functions) m h =
    get-insert_all key functions (insert (normalize_name f.name) f m) h.1
    ∙ get-insert_other (normalize_name f.name) key f m h.0

-- The test of `load` finds every name that is taken.
ensure_new-IsOther :
    (key : Text) (g : ScalarFunction) (functions : List ScalarFunction) (r : ExtensionRegistry)
    → get key r.scalar_functions ≡ some g
    → ensure_new functions r ≡ ok tt
    → All (IsOther key) functions
unfolding ensure_new
ensure_new-IsOther key g [] r there h = tt
ensure_new-IsOther key g (f ∷ functions) r there h =
    let (u, free, rest) =
      Core.bind_inv (reject (is_some (get (normalize_name f.name) r.scalar_functions)) extension)
        (λ _. ensure_new functions r) h in
    (
      elim (Bool-cases (text_eq (normalize_name f.name) key)) [
        | inl y ↦
            let same = text_eq_sound (normalize_name f.name) key y in cc (rw (same, there) at free)
        | inr n ↦ n
      ],
      ensure_new-IsOther key g functions r there rest,
    )

-- Whatever `load` returns, a function that was registered is found as before.
load_new-kept :
    (d : ExtensionDescriptor) (r : ExtensionRegistry) (key : Text) (g : ScalarFunction)
    → get key r.scalar_functions ≡ some g
    → get key (load_new d r).1.scalar_functions ≡ some g
unfolding load_new
load_new-kept d r key g there = cases (ensure_new d.scalar_functions r) refl
  where
    cases :
        (o : DbResult (Unit {0}))
        → ensure_new d.scalar_functions r ≡ o
        → get key (load_new d r).1.scalar_functions ≡ some g
    cases (ok u) e = rw e (
        get-insert_all key d.scalar_functions r.scalar_functions
          (ensure_new-IsOther key g d.scalar_functions r there e)
        ∙ there)
    cases (err x) e = rw e there
    cases panicked e = rw e there

-- Whatever `load` returns, a scalar function that was registered is found under its name as before.
pub scalar_function-load :
    (d : ExtensionDescriptor) (r : ExtensionRegistry) (name : Text) (g : ScalarFunction)
    → scalar_function name r ≡ some g
    → scalar_function name (load d r).1 ≡ some g
unfolding load scalar_function
scalar_function-load d r name g there = elim (Bool-cases (abi_version_supported d.abi_version)) [
  | inl y ↦ elim (Bool-cases (is_loaded d.name r)) [
    | inl loaded ↦ rw (y, loaded) there
    | inr new ↦ rw (y, new) (load_new-kept d r (normalize_name name) g there)
  ]
  | inr n ↦ rw n there
]

-- After `load` has succeeded the extension is loaded, and loading it again succeeds and changes nothing.
pub load-twice :
    (d : ExtensionDescriptor) (r : ExtensionRegistry)
    → (load d r).0 ≡ ok tt
    → (is_loaded d.name (load d r).1 ≡ true) × (load d (load d r).1 ≡ (ok tt, (load d r).1))
unfolding load load_new is_loaded
load-twice d r h = elim (Bool-cases (abi_version_supported d.abi_version)) [
  | inl y ↦ elim (Bool-cases (is_some (get (normalize_name d.name) r.extensions))) [
    | inl loaded ↦ rw (y, loaded) (loaded, rw loaded refl)
    | inr new ↦
        let (u, free, rest) =
          bind_inv (gets (ensure_new d.scalar_functions)) (λ _. modify (with_descriptor d)) r tt
            (rw (y, new) at h) in
        rw (y, new, free, get-insert_self (normalize_name d.name) d r.extensions) (refl, refl)
  ]
  | inr n ↦ cc
]

lower_upper_lem : (s : Text) → normalize_name (uppercase s) ≡ normalize_name s
unfolding normalize_name uppercase
lower_upper_lem [] = refl
lower_upper_lem (c ∷ cs) =
    let one : to_lower (to_upper c) ≡ to_lower c = ground arith in rw (one, lower_upper_lem cs) refl

-- The names of extensions and functions are looked up without regard to the case of ASCII letters.
pub call_scalar-uppercase :
    (name : Text) (args : List Value) (r : ExtensionRegistry)
    → (is_loaded (uppercase name) r ≡ is_loaded name r)
      × (call_scalar (uppercase name) args r ≡ call_scalar name args r)
unfolding is_loaded call_scalar scalar_function
call_scalar-uppercase name args r = rw (lower_upper_lem name) (refl, refl)
