-- ===== src/Extension/Load.antt =====
-- The methods of the registry on `&mut self`, crates/rdbms_extension/src/lib.rs.
use rdbms.Prelude.{ℕ, not, List, [], ◌∷◌, ◌==◌, if◌then◌else◌}
use rdbms.Core
use rdbms.Core.{DbResult, ok, extension, reject}
use rdbms.Exec.{Exec, pure, lift, gets, modify, ◌>>=◌, ◌>>◌}
use rdbms.Catalog.Format.{Text, text_eq}
use rdbms.Extension.Registry.{
  abi_version_supported, static, as_str, ExtensionDescriptor, ExtensionRegistry, new_registry,
  normalize_name, insert, is_loaded, ensure_new, insert_all,
}
use rdbms.Extension.Stdlib.{builtin_extension_descriptor}

abbrev pub with_descriptor : ExtensionDescriptor → ExtensionRegistry → ExtensionRegistry
with_descriptor d r = record {
  extensions = insert (normalize_name d.name) d r.extensions;
  scalar_functions = insert_all d.scalar_functions r.scalar_functions;
}

unfoldable pub load_new : ExtensionDescriptor → Exec ExtensionRegistry (Unit {0})
load_new d = do gets (ensure_new d.scalar_functions); modify (with_descriptor d)

unfoldable pub load : ExtensionDescriptor → Exec ExtensionRegistry (Unit {0})
load d = do
  lift (reject (not (abi_version_supported d.abi_version)) extension)
  known ← gets (λ r. ok (is_loaded d.name r))
  if known then pure tt else load_new d

unfoldable pub load_static : Text → Exec ExtensionRegistry ExtensionDescriptor
load_static name = do
  descriptor ← lift (builtin_extension_descriptor name)
  load descriptor
  pure descriptor

-- What the catalog keeps of an installed extension.
pub record Installed : Type 0 where
  pub name : Text
  pub abi_version : ℕ
  pub kind : Text

unfoldable pub load_installed : List Installed → Exec ExtensionRegistry (Unit {0})
load_installed [] = pure tt
load_installed (e ∷ installed) = do
  lift (reject (not (text_eq e.kind (as_str static))) extension)
  descriptor ← lift (builtin_extension_descriptor e.name)
  lift (reject (not (descriptor.abi_version == e.abi_version)) extension)
  load descriptor
  load_installed installed

unfoldable pub registry_from_installed_extensions : List Installed → DbResult ExtensionRegistry
registry_from_installed_extensions installed =
    Core.◌>>=◌ (load_installed installed new_registry).0
      (λ _. ok (load_installed installed new_registry).1)
