-- ===== src/Extension/Functions.antt =====
-- The functions of `stdlib` do not panic on as many arguments as they accept, and return values of
-- the types that they declare.
use mathlib.Core.Path.{subst}
use rdbms.Prelude.{
  ltb, ◌^◌, ◌≡◌, ◌≢◌, refl, arith, true, List, [], ◌∷◌, ◌⊎◌, length, All, ◌==◌, inl, inr,
  Bool-cases,
}
use rdbms.Core.{ok, panicked}
use rdbms.Catalog.Format.{Text}
use rdbms.Core.{ℤ, pos, negsuc}
use rdbms.Extension.Registry.{
  Value, null, text, integer, double, accepts, ScalarFunction, ExtensionDescriptor, normalize_name,
}
use rdbms.Extension.Stdlib
use rdbms.Extension.Stdlib.{
  checked_abs, type_name, uppercase, char_count, lower, upper, abs_value, typeof_value,
  rdbms_version, stdlib_functions, builtin_extension_descriptor, stdlib_extension,
}

abbrev pub dynamic : Text
dynamic = b'D' ∷ b'Y' ∷ b'N' ∷ b'A' ∷ b'M' ∷ b'I' ∷ b'C' ∷ []

-- A null, a value of the type, or any value where the type is dynamic.
abbrev pub HasType : Text → Value → Type 0
HasType t v = (v ≡ null) ⊎ ((t ≡ dynamic) ⊎ (type_name v ≡ t))

-- A function that does not panic on as many arguments as it accepts, and keeps to its return type.
pub record IsGuarded (f : ScalarFunction) : Type 0 where
  pub guarded : (args : List Value) → accepts f.arity (length args) ≡ true → f.eval args ≢ panicked
  pub typed : (args : List Value) (v : Value) → f.eval args ≡ ok v → HasType f.return_type v

abbrev int_name : Text
int_name = b'I' ∷ b'N' ∷ b'T' ∷ []

abbrev text_name : Text
text_name = b'T' ∷ b'E' ∷ b'X' ∷ b'T' ∷ []

null_lem : (t : Text) (v : Value) → ok null ≡ ok v → HasType t v
null_lem t v e = let same : v ≡ null = cc in inl same

text_lem : (s : Text) (v : Value) → ok (text s) ≡ ok v → HasType text_name v
unfolding type_name
text_lem s v e = let same : v ≡ text s = cc in inr (inr (rw same refl))

length_typed : (args : List Value) (v : Value) → Stdlib.length args ≡ ok v → HasType int_name v
unfolding Stdlib.length type_name
length_typed [] v e = cc
length_typed (null ∷ args) v e = null_lem int_name v e
length_typed (text value ∷ args) v e = elim (Bool-cases (ltb (char_count value) (2 ^ 63))) [
  | inl y ↦
      let same : v ≡ integer (pos (char_count value)) = ground (arith, y, e) in
      inr (inr (rw same refl))
  | inr n ↦ cc (rw n at e)
]
length_typed (integer n ∷ args) v e = cc
length_typed (double bits ∷ args) v e = cc

lower_typed : (args : List Value) (v : Value) → lower args ≡ ok v → HasType text_name v
unfolding lower
lower_typed [] v e = cc
lower_typed (null ∷ args) v e = null_lem text_name v e
lower_typed (text value ∷ args) v e = text_lem (normalize_name value) v e
lower_typed (integer n ∷ args) v e = cc
lower_typed (double bits ∷ args) v e = cc

upper_typed : (args : List Value) (v : Value) → upper args ≡ ok v → HasType text_name v
unfolding upper
upper_typed [] v e = cc
upper_typed (null ∷ args) v e = null_lem text_name v e
upper_typed (text value ∷ args) v e = text_lem (uppercase value) v e
upper_typed (integer n ∷ args) v e = cc
upper_typed (double bits ∷ args) v e = cc

typeof_value_typed :
    (args : List Value) (v : Value) → typeof_value args ≡ ok v → HasType text_name v
unfolding typeof_value
typeof_value_typed [] v e = cc
typeof_value_typed (value ∷ args) v e = text_lem (type_name value) v e

rdbms_version_typed :
    (args : List Value) (v : Value) → rdbms_version args ≡ ok v → HasType text_name v
unfolding rdbms_version
rdbms_version_typed [] v e = text_lem _ v e
rdbms_version_typed (value ∷ args) v e = cc

checked_abs_total : (n : ℤ) → checked_abs n ≢ panicked
unfolding checked_abs
checked_abs_total (pos n) = λ e. cc
checked_abs_total (negsuc n) = ground arith

length_total : (args : List Value) → (1 == length args) ≡ true → Stdlib.length args ≢ panicked
unfolding Stdlib.length
length_total [] h = cc
length_total (null ∷ args) h = λ e. cc
length_total (text value ∷ args) h = ground arith
length_total (integer n ∷ args) h = λ e. cc
length_total (double bits ∷ args) h = λ e. cc

lower_total : (args : List Value) → (1 == length args) ≡ true → lower args ≢ panicked
unfolding lower
lower_total [] h = cc
lower_total (null ∷ args) h = λ e. cc
lower_total (text value ∷ args) h = λ e. cc
lower_total (integer n ∷ args) h = λ e. cc
lower_total (double bits ∷ args) h = λ e. cc

upper_total : (args : List Value) → (1 == length args) ≡ true → upper args ≢ panicked
unfolding upper
upper_total [] h = cc
upper_total (null ∷ args) h = λ e. cc
upper_total (text value ∷ args) h = λ e. cc
upper_total (integer n ∷ args) h = λ e. cc
upper_total (double bits ∷ args) h = λ e. cc

abs_value_total : (args : List Value) → (1 == length args) ≡ true → abs_value args ≢ panicked
unfolding abs_value
abs_value_total [] h = cc
abs_value_total (null ∷ args) h = λ e. cc
abs_value_total (text value ∷ args) h = λ e. cc
abs_value_total (integer n ∷ args) h = checked_abs_total n
abs_value_total (double bits ∷ args) h = λ e. cc

typeof_value_total : (args : List Value) → (1 == length args) ≡ true → typeof_value args ≢ panicked
unfolding typeof_value
typeof_value_total [] h = cc
typeof_value_total (value ∷ args) h = λ e. cc

rdbms_version_total : (args : List Value) → rdbms_version args ≢ panicked
unfolding rdbms_version
rdbms_version_total [] = λ e. cc
rdbms_version_total (value ∷ args) = λ e. cc

stdlib-IsGuarded : All IsGuarded stdlib_functions
unfolding accepts
stdlib-IsGuarded = (
  record { guarded = length_total; typed = length_typed },
  (
    record { guarded = lower_total; typed = lower_typed },
    (
      record { guarded = upper_total; typed = upper_typed },
      (
        record { guarded = abs_value_total; typed = λ args v e. inr (inl refl) },
        (
          record { guarded = typeof_value_total; typed = typeof_value_typed },
          (
            record { guarded = λ args h. rdbms_version_total args; typed = rdbms_version_typed },
            tt,
          ),
        ),
      ),
    ),
  ),
)

pub builtin-IsGuarded :
    (name : Text) (d : ExtensionDescriptor)
    → builtin_extension_descriptor name ≡ ok d
    → All IsGuarded d.scalar_functions
unfolding builtin_extension_descriptor
builtin-IsGuarded name d e =
    let same : stdlib_extension ≡ d = ground (arith, e) in
    subst (λ (d : ExtensionDescriptor). All IsGuarded d.scalar_functions) same stdlib-IsGuarded
