-- ===== src/Exec.antt =====
-- Fallible actions on `&mut self`. What was written before an error stays written, so the state
-- comes back beside the error too.
use rdbms.Prelude.{◌≡◌, refl, ap}
use rdbms.Core.{DbResult, DbError, ok, err, panicked}

abbrev pub Exec {ℓ} : Type ℓ → Type ℓ → Type ℓ
Exec S A = S → DbResult A × S

module _ {ℓ} {S A : Type ℓ} where
  abbrev pub pure : A → Exec S A
  pure a s = (ok a, s)

  abbrev pub lift : DbResult A → Exec S A
  lift r s = (r, s)

  -- A method on `&self`, called by one on `&mut self`.
  abbrev pub gets : (S → DbResult A) → Exec S A
  gets f s = (f s, s)

module _ {ℓ} {S : Type ℓ} where
  abbrev pub modify : (S → S) → S → DbResult (Unit {ℓ}) × S
  modify f s = (ok tt, f s)

module _ {ℓ} {S A B : Type ℓ} where
  -- The rest of a method, after a step that gave r and left the state at s.
  abbrev rest_of : DbResult A → S → (A → Exec S B) → DbResult B × S
  rest_of panicked s k = (panicked, s)
  rest_of (err e) s k = (err e, s)
  rest_of (ok x) s k = k x s

  infixl 5 ◌>>=◌ ◌>>◌
  abbrev pub ◌>>=◌ : Exec S A → (A → Exec S B) → Exec S B
  ◌>>=◌ step k s = rest_of (step s).0 (step s).1 k

  abbrev pub ◌>>◌ : Exec S A → Exec S B → Exec S B
  m >> n = m >>= λ _. n

  -- What follows a step whose result is known.
  pub bind_run :
      (m : Exec S A) (f : A → Exec S B) (s s' : S) (x : A) → m s ≡ (ok x, s') → (m >>= f) s ≡ f x s'
  bind_run m f s s' x h = ap (λ r. rest_of r.0 r.1 f) h

  -- What follows a panic does not run.
  pub bind-panicked :
      (m : Exec S A) (f : A → Exec S B) (s : S) → (m s).0 ≡ panicked → ((m >>= f) s).0 ≡ panicked
  bind-panicked m f s h = ap (λ r. (rest_of r (m s).1 f).0) h

  rest_inv :
      (r : DbResult A) (s : S) (f : A → Exec S B) (y : B)
      → (rest_of r s f).0 ≡ ok y
      → (x : A) × (r ≡ ok x) × (rest_of r s f ≡ f x s)
  rest_inv panicked s f y h = cc
  rest_inv (err e) s f y h = cc
  rest_inv (ok x) s f y h = (x, refl, refl)

  -- What a method that succeeds says of its first step.
  pub bind_inv :
      (m : Exec S A) (f : A → Exec S B) (s : S) (y : B)
      → ((m >>= f) s).0 ≡ ok y
      → (x : A) × ((m s).0 ≡ ok x) × ((m >>= f) s ≡ f x (m s).1)
  bind_inv m f s y h = rest_inv (m s).0 (m s).1 f y h

  -- What holds of the state after the first step, and after the rest where it runs.
  rest_post :
      (G : S → Type 0) (r : DbResult A) (s : S) (f : A → Exec S B)
      → G s
      → ((x : A) → G (f x s).1)
      → G (rest_of r s f).1
  rest_post G panicked s f h rest = h
  rest_post G (err e) s f h rest = h
  rest_post G (ok x) s f h rest = rest x

  -- The same, where the rest may rely on what holds of the first step's value.
  rest_triple :
      (G : S → Type 0) (Q : A → S → Type 0) (R : B → S → Type 0) (r : DbResult A) (s : S)
      (f : A → Exec S B)
      → G s
      → ((a : A) → r ≡ ok a → Q a s)
      → ((a : A) → Q a s → G (f a s).1 × ((b : B) → (f a s).0 ≡ ok b → R b (f a s).1))
      → G (rest_of r s f).1 × ((b : B) → (rest_of r s f).0 ≡ ok b → R b (rest_of r s f).1)
  rest_triple G Q R panicked s f h q rest = (h, λ b e. cc)
  rest_triple G Q R (err e) s f h q rest = (h, λ b e'. cc)
  rest_triple G Q R (ok x) s f h q rest = rest x (q x refl)

  pub bind-triple :
      (G : S → Type 0) (Q : A → S → Type 0) (R : B → S → Type 0) (m : Exec S A) (f : A → Exec S B)
      (s : S)
      → G (m s).1
      → ((a : A) → (m s).0 ≡ ok a → Q a (m s).1)
      → ((a : A)
          → Q a (m s).1
          → G (f a (m s).1).1 × ((b : B) → (f a (m s).1).0 ≡ ok b → R b (f a (m s).1).1))
      → G ((m >>= f) s).1 × ((b : B) → ((m >>= f) s).0 ≡ ok b → R b ((m >>= f) s).1)
  bind-triple G Q R m f s h q rest = rest_triple G Q R (m s).0 (m s).1 f h q rest

  rest_err :
      (G : S → Type 0) (r : DbResult A) (s : S) (f : A → Exec S B) (e : DbError)
      → (rest_of r s f).0 ≡ err e
      → G s
      → ((x : A) → r ≡ ok x → (f x s).0 ≡ err e → G (f x s).1)
      → G (rest_of r s f).1
  rest_err G panicked s f e h first rest = first
  rest_err G (err e') s f e h first rest = first
  rest_err G (ok x) s f e h first rest = rest x refl h

  -- The same of a method that fails, in its first step or in the rest.
  pub bind-err :
      (G : S → Type 0) (m : Exec S A) (f : A → Exec S B) (s : S) (e : DbError)
      → ((m >>= f) s).0 ≡ err e
      → G (m s).1
      → ((x : A) → (m s).0 ≡ ok x → (f x (m s).1).0 ≡ err e → G (f x (m s).1).1)
      → G ((m >>= f) s).1
  bind-err G m f s e h first rest = rest_err G (m s).0 (m s).1 f e h first rest

  pub bind-post :
      (G : S → Type 0) (m : Exec S A) (f : A → Exec S B) (s : S)
      → G (m s).1
      → ((x : A) → G (f x (m s).1).1)
      → G ((m >>= f) s).1
  bind-post G m f s h rest = rest_post G (m s).0 (m s).1 f h rest

-- A step whose first part is itself two steps.
module _ {ℓ} {S A B C : Type ℓ} where
  rest_assoc :
      (r : DbResult A) (s : S) (f : A → Exec S B) (g : B → Exec S C)
      → rest_of (rest_of r s f).0 (rest_of r s f).1 g ≡ rest_of r s (λ x. f x >>= g)
  rest_assoc panicked s f g = refl
  rest_assoc (err e) s f g = refl
  rest_assoc (ok x) s f g = refl

  pub bind_assoc :
      (m : Exec S A) (f : A → Exec S B) (g : B → Exec S C) (s : S)
      → ((m >>= f) >>= g) s ≡ (m >>= λ x. f x >>= g) s
  bind_assoc m f g s = rest_assoc (m s).0 (m s).1 f g
