-- ===== src/Core.antt =====
-- crates/rdbms_core/src/lib.rs: identifiers and the error boundary, with the two ways in which the
-- code passes errors on: a fallible read (`DbResult`) and a fallible action on `&mut self` (`Exec`).
-- No code branches on the text of an error message, so the messages are not modelled.
use rdbms.Prelude.{
  ℕ, ◌+◌, ◌^◌, ◌≡◌, refl, Bool, true, false, Option, none, some, ltb, if◌then◌else◌,
}

-- Machine-width identifiers are numbers; their range stands in the statements that need it.
abbrev pub PageId : Type 0
PageId = ℕ

abbrev pub RelationId : Type 0
RelationId = ℕ

abbrev pub TxId : Type 0
TxId = ℕ

abbrev pub Lsn : Type 0
Lsn = ℕ

abbrev pub SlotId : Type 0
SlotId = ℕ

pub record RowId : Type 0 where
  pub page_id : PageId
  pub slot_id : SlotId

-- An `i64`: a number from zero up, or, as `negsuc n`, the number - (n + 1).
pub data ℤ : Type 0 where
  pos negsuc : ℕ → ℤ

pub data DbError : Type 0 where
  user retryable io corruption internal_invariant extension : DbError

-- `panicked` is no value of the source: it is a Rust panic, such as a slice out of range.
pub data DbResult {ℓ} (A : Type ℓ) : Type ℓ where
  ok : A → DbResult A
  err : DbError → DbResult A
  panicked : DbResult A

infixl 5 ◌>>=◌ ◌>>◌
abbrev pub ◌>>=◌ {ℓ κ} : {A : Type ℓ} {B : Type κ} → DbResult A → (A → DbResult B) → DbResult B
panicked >>= k = panicked
err e >>= k = err e
ok x >>= k = k x

abbrev pub ◌>>◌ {ℓ} : {B : Type ℓ} → DbResult (Unit {0}) → DbResult B → DbResult B
m >> k = m >>= λ _. k

-- `if bad { return Err(e) }`
abbrev pub reject : Bool → DbError → DbResult (Unit {0})
reject true e = err e
reject false e = ok tt

-- `option.ok_or(e)`
abbrev pub ok_or {ℓ} : {A : Type ℓ} → Option A → DbError → DbResult A
ok_or (some a) e = ok a
ok_or none e = err e

-- `a.checked_add(b).ok_or(e)` on `usize` and `u64`, both of 64 bits.
abbrev pub checked_add : ℕ → ℕ → DbError → DbResult ℕ
checked_add a b e = if ltb (a + b) (2 ^ 64) then ok (a + b) else err e

-- What a chain that succeeds says of its first step.
pub bind_inv {ℓ κ} :
    {T : Type ℓ} {R : Type κ} {y : R} (step : DbResult T) (k : T → DbResult R)
    → ◌>>=◌ step k ≡ ok y
    → (x : T) × (step ≡ ok x) × (k x ≡ ok y)
bind_inv panicked k done = cc
bind_inv (err e) k done = cc
bind_inv (ok x) k done = (x, refl, done)

-- A result that is no panic, and of which P holds where it is a value.
unfoldable pub Ends {ℓ} : {A : Type ℓ} → (A → Type 0) → DbResult A → Type 0
Ends P (ok x) = P x
Ends P (err e) = Unit
Ends P panicked = ⊥

module _ {ℓ} {A : Type ℓ} (P : A → Type 0) where
  pub Ends-ok : (x : A) → P x → Ends P (ok x)
  unfolding Ends
  Ends-ok x h = h

  pub Ends-bind {κ} :
      {B : Type κ} (Q : B → Type 0) (step : DbResult A) (k : A → DbResult B)
      → Ends P step
      → ((x : A) → P x → Ends Q (k x))
      → Ends Q (step >>= k)
  unfolding Ends
  Ends-bind Q (ok x) k h rest = rest x h
  Ends-bind Q (err e) k h rest = tt
  Ends-bind Q panicked k h rest = elim h [ ]

pub Ends-reject : (bad : Bool) (e : DbError) → Ends (λ _. bad ≡ false) (reject bad e)
unfolding Ends
Ends-reject true e = tt
Ends-reject false e = refl

Ends-if : (t : Bool) (n : ℕ) (e : DbError) → Ends (λ m. m ≡ n) (if t then ok n else err e)
unfolding Ends
Ends-if true n e = refl
Ends-if false n e = tt

pub Ends-checked_add : (a b : ℕ) (e : DbError) → Ends (λ n. n ≡ a + b) (checked_add a b e)
Ends-checked_add a b e = Ends-if (ltb (a + b) (2 ^ 64)) (a + b) e
