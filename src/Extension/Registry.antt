-- ===== src/Extension/Registry.antt =====
-- The registry and its methods on `&self`, crates/rdbms_extension/src/lib.rs, with the ABI version of
-- crates/rdbms_ext_abi/src/lib.rs.
use rdbms.Prelude.{
  ℕ, ◌+◌, Bool, not, ◌&&◌, Option, none, some, List, [], ◌∷◌, length, ltb, ◌==◌, if◌then◌else◌,
}
use rdbms.Core.{ℤ, DbResult, ok, user, extension, ok_or, reject, ◌>>=◌, ◌>>◌}
use rdbms.Catalog.Format.{Text, text_eq}
use rdbms.Catalog.Meta.{is_some}

-- A `Double` is the bits of its `f64`.
pub data Value : Type 0 where
  null : Value
  text : Text → Value
  integer : ℤ → Value
  double : ℕ → Value

abbrev pub rdbms_ext_abi_version : ℕ
rdbms_ext_abi_version = 1

unfoldable pub abi_version_supported : ℕ → Bool
abi_version_supported version = version == rdbms_ext_abi_version

pub data ExtensionKind : Type 0 where
  static : ExtensionKind

abbrev pub as_str : ExtensionKind → Text
as_str static = b's' ∷ b't' ∷ b'a' ∷ b't' ∷ b'i' ∷ b'c' ∷ []

pub data ScalarArity : Type 0 where
  exact : ℕ → ScalarArity

unfoldable pub accepts : ScalarArity → ℕ → Bool
accepts (exact expected) len = expected == len

pub record ScalarFunction : Type 0 where
  pub name : Text
  pub arity : ScalarArity
  pub return_type : Text
  pub eval : List Value → DbResult Value

pub record ExtensionDescriptor : Type 0 where
  pub name : Text
  pub abi_version : ℕ
  pub kind : ExtensionKind
  pub scalar_functions : List ScalarFunction

-- `to_ascii_lowercase`
abbrev pub to_lower : ℕ → ℕ
to_lower c = if not (ltb c 65) && ltb c 91 then c + 32 else c

unfoldable pub normalize_name : Text → Text
normalize_name [] = []
normalize_name (c ∷ cs) = to_lower c ∷ normalize_name cs

-- A `BTreeMap<String, _>`, of which no order is observed here.
module _ {A : Type 0} where
  unfoldable pub get : Text → List (Text × A) → Option A
  get key [] = none
  get key ((k, a) ∷ entries) = if text_eq k key then some a else get key entries

  unfoldable pub insert : Text → A → List (Text × A) → List (Text × A)
  insert key new [] = (key, new) ∷ []
  insert key new ((k, a) ∷ entries) =
      if text_eq k key then (k, new) ∷ entries else (k, a) ∷ insert key new entries

pub record ExtensionRegistry : Type 0 where
  pub extensions : List (Text × ExtensionDescriptor)
  pub scalar_functions : List (Text × ScalarFunction)

abbrev pub new_registry : ExtensionRegistry
new_registry = record { extensions = []; scalar_functions = [] }

unfoldable pub is_loaded : Text → ExtensionRegistry → Bool
is_loaded name r = is_some (get (normalize_name name) r.extensions)

unfoldable pub scalar_function : Text → ExtensionRegistry → Option ScalarFunction
scalar_function name r = get (normalize_name name) r.scalar_functions

-- The two loops of `load`.
unfoldable pub ensure_new : List ScalarFunction → ExtensionRegistry → DbResult (Unit {0})
ensure_new [] r = ok tt
ensure_new (f ∷ functions) r = do
  reject (is_some (get (normalize_name f.name) r.scalar_functions)) extension
  ensure_new functions r

unfoldable pub insert_all :
    List ScalarFunction → List (Text × ScalarFunction) → List (Text × ScalarFunction)
insert_all [] entries = entries
insert_all (f ∷ functions) entries = insert_all functions (insert (normalize_name f.name) f entries)

unfoldable pub call_scalar : Text → List Value → ExtensionRegistry → DbResult Value
call_scalar name args r = do
  f ← ok_or (scalar_function name r) user
  reject (not (accepts f.arity (length args))) user
  f.eval args
