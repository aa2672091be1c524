-- ===== src/Extension/Guarded.antt =====
-- Loading extensions keeps what is registered, and calls of registered functions do not panic.
use mathlib.Core.Path.{subst}
use rdbms.Prelude.{
  ◌≡◌, ◌≢◌, refl, not, Option, none, some, List, [], ◌∷◌, length, All, ◌==◌, inl, inr, Bool-cases,
}
use rdbms.Core.{DbResult, ok, err, panicked, user, extension, reject, ok_or}
use rdbms.Core
use rdbms.Exec.{bind-post, bind-triple, Exec, lift, gets, ◌>>=◌}
use rdbms.Catalog.Format.{Text, text_eq}
use rdbms.Extension.Registry.{
  Value, accepts, ScalarFunction, ExtensionDescriptor, ExtensionRegistry, new_registry,
  normalize_name, get, insert, is_loaded, scalar_function, ensure_new, insert_all, call_scalar,
  abi_version_supported, as_str, static,
}
use rdbms.Extension.Stdlib.{builtin_extension_descriptor}
use rdbms.Extension.Load.{
  load_new, load, Installed, load_installed, registry_from_installed_extensions,
}
use rdbms.Extension.Functions.{IsGuarded, HasType, builtin-IsGuarded}

abbrev Guards : List (Text × ScalarFunction) → Type 0
Guards entries = All (λ (e : Text × ScalarFunction). IsGuarded e.1) entries

insert-Guards :
    (key : Text) (f : ScalarFunction) (entries : List (Text × ScalarFunction))
    → IsGuarded f
    → Guards entries
    → Guards (insert key f entries)
unfolding insert
insert-Guards key f [] x h = (x, tt)
insert-Guards key f ((k, g) ∷ entries) x h = elim (Bool-cases (text_eq k key)) [
  | inl y ↦ rw y (x, h.1)
  | inr n ↦ rw n (h.0, insert-Guards key f entries x h.1)
]

insert_all-Guards :
    (functions : List ScalarFunction) (entries : List (Text × ScalarFunction))
    → All IsGuarded functions
    → Guards entries
    → Guards (insert_all functions entries)
unfolding insert_all
insert_all-Guards [] entries x h = h
insert_all-Guards (f ∷ functions) entries x h =
    insert_all-Guards functions _ x.1 (insert-Guards (normalize_name f.name) f entries x.0 h)

get-IsGuarded :
    (key : Text) (f : ScalarFunction) (entries : List (Text × ScalarFunction))
    → Guards entries
    → get key entries ≡ some f
    → IsGuarded f
unfolding get
get-IsGuarded key f [] h e = cc
get-IsGuarded key f ((k, g) ∷ entries) h e = elim (Bool-cases (text_eq k key)) [
  | inl y ↦ let same : g ≡ f = cc (rw y at e) in rw same at h.0
  | inr n ↦ get-IsGuarded key f entries h.1 (rw n at e)
]

load_new-Guards :
    (d : ExtensionDescriptor) (r : ExtensionRegistry)
    → All IsGuarded d.scalar_functions
    → Guards r.scalar_functions
    → Guards (load_new d r).1.scalar_functions
unfolding load_new
load_new-Guards d r x h =
    bind-post (λ r. Guards r.scalar_functions) (gets (ensure_new d.scalar_functions)) _ r h
      (λ _. insert_all-Guards d.scalar_functions r.scalar_functions x h)

load-Guards :
    (d : ExtensionDescriptor) (r : ExtensionRegistry)
    → All IsGuarded d.scalar_functions
    → Guards r.scalar_functions
    → Guards (load d r).1.scalar_functions
unfolding load
load-Guards d r x h =
    bind-post (λ r. Guards r.scalar_functions)
      (lift (reject (not (abi_version_supported d.abi_version)) extension)) _ r h
      (λ _. elim (Bool-cases (is_loaded d.name r)) [
        | inl y ↦ rw y h
        | inr n ↦ rw n (load_new-Guards d r x h)
      ])

abbrev IsSafe : ExtensionRegistry → Type 0
IsSafe r = Guards r.scalar_functions

-- One installed extension, and the rest of them.
builtin-IsSafe :
    (name : Text) (k : ExtensionDescriptor → Exec ExtensionRegistry (Unit {0}))
    (r : ExtensionRegistry)
    → IsSafe r
    → ((d : ExtensionDescriptor) → All IsGuarded d.scalar_functions → IsSafe (k d r).1)
    → IsSafe ((lift (builtin_extension_descriptor name) >>= k) r).1
builtin-IsSafe name k r h rest =
    (bind-triple IsSafe (λ d r. All IsGuarded d.scalar_functions) (λ _ _. Unit)
      (lift (builtin_extension_descriptor name)) k r h (λ d e. builtin-IsGuarded name d e)
      (λ d x. (rest d x, λ b e. tt))).0

load_installed-IsSafe :
    (installed : List Installed) (r : ExtensionRegistry)
    → IsSafe r
    → IsSafe (load_installed installed r).1
unfolding load_installed
load_installed-IsSafe [] r h = h
load_installed-IsSafe (e ∷ installed) r h =
    bind-post IsSafe (lift (reject (not (text_eq e.kind (as_str static))) extension)) _ r h (λ _.
      builtin-IsSafe e.name _ r h (λ d x.
        bind-post IsSafe (lift (reject (not (d.abi_version == e.abi_version)) extension)) _ r h
          (λ _.
            bind-post IsSafe (load d) _ r (load-Guards d r x h)
              (λ _. load_installed-IsSafe installed (load d r).1 (load-Guards d r x h)))))

guarded_call :
    (f : ScalarFunction) (args : List Value)
    → IsGuarded f
    → Core.◌>>◌ (reject (not (accepts f.arity (length args))) user) (f.eval args) ≢ panicked
guarded_call f args x = elim (Bool-cases (accepts f.arity (length args))) [
  | inl y ↦ rw y (x.guarded args y)
  | inr n ↦ rw n (λ e. cc)
]

found_call :
    (found : Option ScalarFunction) (args : List Value)
    → ((f : ScalarFunction) → found ≡ some f → IsGuarded f)
    → Core.◌>>=◌
        (ok_or found user)
        (λ f. Core.◌>>◌ (reject (not (accepts f.arity (length args))) user) (f.eval args))
      ≢ panicked
found_call none args x = λ e. cc
found_call (some f) args x = guarded_call f args (x f refl)

made-IsSafe :
    (installed : List Installed) (r : ExtensionRegistry)
    → registry_from_installed_extensions installed ≡ ok r
    → IsSafe r
unfolding registry_from_installed_extensions
made-IsSafe installed r made =
    let (done, loaded, same) =
      Core.bind_inv (load_installed installed new_registry).0
        (λ _. ok (load_installed installed new_registry).1) made in
    let at : (load_installed installed new_registry).1 ≡ r = cc in
    subst IsSafe at (load_installed-IsSafe installed new_registry tt)

-- A registry that is made of the installed extensions never panics in a call, whatever the name and
-- the arguments are: the arity is tested before a function looks at its arguments.
pub call_scalar-total :
    (installed : List Installed) (r : ExtensionRegistry) (name : Text) (args : List Value)
    → registry_from_installed_extensions installed ≡ ok r
    → call_scalar name args r ≢ panicked
unfolding call_scalar scalar_function
call_scalar-total installed r name args made =
    let safe = made-IsSafe installed r made in
    found_call (get (normalize_name name) r.scalar_functions) args
      (λ f found. get-IsGuarded (normalize_name name) f r.scalar_functions safe found)

-- A call that succeeds, of a registry made of the installed extensions, returns a null or a value of
-- the type that its function declares, or any value where that type is DYNAMIC.
pub call_scalar-HasType :
    (installed : List Installed) (r : ExtensionRegistry) (name : Text) (args : List Value)
    (f : ScalarFunction) (v : Value)
    → registry_from_installed_extensions installed ≡ ok r
    → scalar_function name r ≡ some f
    → call_scalar name args r ≡ ok v
    → HasType f.return_type v
unfolding call_scalar scalar_function
call_scalar-HasType installed r name args f v made found e =
    let safe = made-IsSafe installed r made in
    let (u, arity, run) =
      Core.bind_inv (reject (not (accepts f.arity (length args))) user) (λ _. f.eval args)
        (rw found at e) in
    (get-IsGuarded (normalize_name name) f r.scalar_functions safe found).typed args v run
