-- ===== src/Extension/Runs.antt =====
-- The theorems of the extension registry at the built-in extension.
use rdbms.Prelude.{◌≡◌, ◌≢◌, refl, true, some, List, [], ◌∷◌}
use rdbms.Core.{ok, panicked}
use rdbms.Catalog.Format.{Text, text_eq}
use rdbms.Core.{pos}
use rdbms.Extension.Registry.{
  normalize_name, abi_version_supported, get, ensure_new, insert_all, insert, accepts,
  ExtensionRegistry, ScalarFunction, ExtensionDescriptor, Value, text, integer, new_registry,
  is_loaded, scalar_function, call_scalar, exact, static,
}
use rdbms.Extension.Stdlib
use rdbms.Extension.Stdlib.{stdlib, stdlib_extension, stdlib_functions, uppercase}
use rdbms.Extension.Load.{
  Installed, load_installed, load_new, load, with_descriptor, registry_from_installed_extensions,
}
use rdbms.Extension.Guarded.{call_scalar-total, call_scalar-HasType}
use rdbms.Extension.Functions.{HasType}
use rdbms.Extension.Kept.{scalar_function-load, load-twice, call_scalar-uppercase}

abbrev installed : List Installed
installed =
    record { name = stdlib; abi_version = 1; kind = b's' ∷ b't' ∷ b'a' ∷ b't' ∷ b'i' ∷ b'c' ∷ [] }
    ∷ []

abbrev loaded : ExtensionRegistry
loaded = with_descriptor stdlib_extension new_registry

made : registry_from_installed_extensions installed ≡ ok loaded
unfolding registry_from_installed_extensions load_installed text_eq
    Stdlib.builtin_extension_descriptor normalize_name load abi_version_supported is_loaded get
    load_new ensure_new
made = refl

abbrev length_name : Text
length_name = b'l' ∷ b'e' ∷ b'n' ∷ b'g' ∷ b't' ∷ b'h' ∷ []

abbrev args : List Value
args = text (b'a' ∷ b'b' ∷ []) ∷ []

-- A call that succeeds, and one without arguments.
length_2 : call_scalar length_name args loaded ≡ ok (integer (pos 2))
unfolding call_scalar scalar_function get insert_all insert text_eq normalize_name accepts
    Stdlib.length Stdlib.char_count
length_2 = refl

call_scalar-total_example : call_scalar length_name [] loaded ≢ panicked
call_scalar-total_example = call_scalar-total installed loaded length_name [] made

abbrev length_function : ScalarFunction
length_function = record {
  name = length_name;
  arity = exact 1;
  return_type = b'I' ∷ b'N' ∷ b'T' ∷ [];
  eval = Stdlib.length;
}

-- Another extension that exports a function of the same name.
abbrev clash : ExtensionDescriptor
clash = record {
  name = b'x' ∷ [];
  abi_version = 1;
  kind = static;
  scalar_functions = length_function ∷ [];
}

found : scalar_function length_name loaded ≡ some length_function
unfolding scalar_function get insert_all insert text_eq normalize_name
found = refl

scalar_function-load_example :
    scalar_function length_name (load clash loaded).1 ≡ some length_function
scalar_function-load_example = scalar_function-load clash loaded length_name length_function found

load_ok : (load stdlib_extension new_registry).0 ≡ ok tt
unfolding load abi_version_supported is_loaded get load_new ensure_new
load_ok = refl

load-twice_example :
    (is_loaded stdlib (load stdlib_extension new_registry).1 ≡ true)
    × (load stdlib_extension (load stdlib_extension new_registry).1
        ≡ (ok tt, (load stdlib_extension new_registry).1))
load-twice_example = load-twice stdlib_extension new_registry load_ok

call_scalar-uppercase_example :
    (is_loaded (uppercase length_name) loaded ≡ is_loaded length_name loaded)
    × (call_scalar (uppercase length_name) args loaded ≡ call_scalar length_name args loaded)
call_scalar-uppercase_example = call_scalar-uppercase length_name args loaded

call_scalar-HasType_example : HasType length_function.return_type (integer (pos 2))
call_scalar-HasType_example =
    call_scalar-HasType installed loaded length_name args length_function (integer (pos 2)) made
      found length_2
