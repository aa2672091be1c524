-- ===== src/Extension/Stdlib.antt =====
-- The functions of the built-in extension `stdlib`, crates/rdbms_extension/src/lib.rs.
use rdbms.Prelude.{ℕ, suc, ◌+◌, ◌-◌, ◌^◌, ◌%◌, not, ◌&&◌, List, [], ◌∷◌, ltb, if◌then◌else◌}
use rdbms.Core.{DbResult, ok, err, panicked, user, internal_invariant, extension}
use rdbms.Catalog.Format.{Text, text_eq}
use rdbms.Core.{ℤ, pos, negsuc}
use rdbms.Extension.Registry.{
  Value, null, text, integer, double, rdbms_ext_abi_version, static, exact, ScalarFunction,
  ExtensionDescriptor, normalize_name,
}

-- `value.chars().count()`: every byte of a character but the first is from 128 to 191.
unfoldable pub char_count : Text → ℕ
char_count [] = 0
char_count (c ∷ cs) = if not (ltb c 128) && ltb c 192 then char_count cs else suc (char_count cs)

abbrev pub to_upper : ℕ → ℕ
to_upper c = if not (ltb c 97) && ltb c 123 then c - 32 else c

unfoldable pub uppercase : Text → Text
uppercase [] = []
uppercase (c ∷ cs) = to_upper c ∷ uppercase cs

-- `checked_abs` of an `i64`.
unfoldable pub checked_abs : ℤ → DbResult Value
checked_abs (pos n) = ok (integer (pos n))
checked_abs (negsuc n) = if ltb (n + 1) (2 ^ 63) then ok (integer (pos (n + 1))) else err user

-- An index past the arguments panics.
unfoldable pub length : List Value → DbResult Value
length [] = panicked
length (null ∷ args) = ok null
length (text value ∷ args) =
    if ltb (char_count value) (2 ^ 63) then ok (integer (pos (char_count value))) else err user
length (integer n ∷ args) = err user
length (double bits ∷ args) = err user

unfoldable pub lower : List Value → DbResult Value
lower [] = panicked
lower (null ∷ args) = ok null
lower (text value ∷ args) = ok (text (normalize_name value))
lower (integer n ∷ args) = err user
lower (double bits ∷ args) = err user

unfoldable pub upper : List Value → DbResult Value
upper [] = panicked
upper (null ∷ args) = ok null
upper (text value ∷ args) = ok (text (uppercase value))
upper (integer n ∷ args) = err user
upper (double bits ∷ args) = err user

-- `f64::abs` clears the sign, the highest bit.
unfoldable pub abs_value : List Value → DbResult Value
abs_value [] = panicked
abs_value (null ∷ args) = ok null
abs_value (text value ∷ args) = err user
abs_value (integer n ∷ args) = checked_abs n
abs_value (double bits ∷ args) = ok (double (bits % 2 ^ 63))

unfoldable pub type_name : Value → Text
type_name null = b'N' ∷ b'U' ∷ b'L' ∷ b'L' ∷ []
type_name (integer n) = b'I' ∷ b'N' ∷ b'T' ∷ []
type_name (text value) = b'T' ∷ b'E' ∷ b'X' ∷ b'T' ∷ []
type_name (double bits) = b'D' ∷ b'O' ∷ b'U' ∷ b'B' ∷ b'L' ∷ b'E' ∷ []

unfoldable pub typeof_value : List Value → DbResult Value
typeof_value [] = panicked
typeof_value (value ∷ args) = ok (text (type_name value))

unfoldable pub rdbms_version : List Value → DbResult Value
rdbms_version [] = ok (
    text (
      b'r' ∷ b'd' ∷ b'b' ∷ b'm' ∷ b's' ∷ b'-' ∷ b's' ∷ b't' ∷ b'a' ∷ b'g' ∷ b'e' ∷ b'9' ∷ b'-'
      ∷ b'e' ∷ b'x' ∷ b't' ∷ b'e' ∷ b'n' ∷ b's' ∷ b'i' ∷ b'o' ∷ b'n' ∷ b'-' ∷ b'v' ∷ b'0' ∷ []))
rdbms_version (value ∷ args) = err internal_invariant

abbrev pub stdlib_functions : List ScalarFunction
stdlib_functions =
    record {
      name = b'l' ∷ b'e' ∷ b'n' ∷ b'g' ∷ b't' ∷ b'h' ∷ [];
      arity = exact 1;
      return_type = b'I' ∷ b'N' ∷ b'T' ∷ [];
      eval = length;
    }
    ∷ record {
      name = b'l' ∷ b'o' ∷ b'w' ∷ b'e' ∷ b'r' ∷ [];
      arity = exact 1;
      return_type = b'T' ∷ b'E' ∷ b'X' ∷ b'T' ∷ [];
      eval = lower;
    }
    ∷ record {
      name = b'u' ∷ b'p' ∷ b'p' ∷ b'e' ∷ b'r' ∷ [];
      arity = exact 1;
      return_type = b'T' ∷ b'E' ∷ b'X' ∷ b'T' ∷ [];
      eval = upper;
    }
    ∷ record {
      name = b'a' ∷ b'b' ∷ b's' ∷ [];
      arity = exact 1;
      return_type = b'D' ∷ b'Y' ∷ b'N' ∷ b'A' ∷ b'M' ∷ b'I' ∷ b'C' ∷ [];
      eval = abs_value;
    }
    ∷ record {
      name = b't' ∷ b'y' ∷ b'p' ∷ b'e' ∷ b'o' ∷ b'f' ∷ [];
      arity = exact 1;
      return_type = b'T' ∷ b'E' ∷ b'X' ∷ b'T' ∷ [];
      eval = typeof_value;
    }
    ∷ record {
      name =
          b'r' ∷ b'd' ∷ b'b' ∷ b'm' ∷ b's' ∷ b'_' ∷ b'v' ∷ b'e' ∷ b'r' ∷ b's' ∷ b'i' ∷ b'o' ∷ b'n'
          ∷ [];
      arity = exact 0;
      return_type = b'T' ∷ b'E' ∷ b'X' ∷ b'T' ∷ [];
      eval = rdbms_version;
    }
    ∷ []

abbrev pub stdlib : Text
stdlib = b's' ∷ b't' ∷ b'd' ∷ b'l' ∷ b'i' ∷ b'b' ∷ []

abbrev pub stdlib_extension : ExtensionDescriptor
stdlib_extension = record {
  name = stdlib;
  abi_version = rdbms_ext_abi_version;
  kind = static;
  scalar_functions = stdlib_functions;
}

unfoldable pub builtin_extension_descriptor : Text → DbResult ExtensionDescriptor
builtin_extension_descriptor name =
    if text_eq (normalize_name name) stdlib then ok stdlib_extension else err extension
