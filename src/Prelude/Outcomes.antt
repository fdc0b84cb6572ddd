-- ===== src/Prelude/Outcomes.antt =====
-- What a Go call ends in: a value, an error value, or a panic.
use Prim.Native.String.{String}
use mathlib.Core.Path.{◌≡◌}
use mathlib.Core.Option.{Option, none, some}

-- An error of the Kubernetes client (its reason as the client gives it), an error made by
-- `errors.New` and the like, or one that `errors.Wrap` puts a message in front of.
pub data Error : Type 0 where
  api : String → Error
  message : String → Error
  wrapped : String → Error → Error

pub data Outcome {ℓ} (A : Type ℓ) : Type ℓ where
  ok : A → Outcome A
  err : Error → Outcome A
  panic : Outcome A

-- Reading through a pointer that may be nil.
abbrev pub deref {ℓ} : {A : Type ℓ} → Option A → Outcome A
deref none = panic
deref (some a) = ok a

abbrev pub map_outcome {ℓ κ} : {A : Type ℓ} {B : Type κ} → (A → B) → Outcome A → Outcome B
map_outcome f (ok a) = ok (f a)
map_outcome f (err e) = err e
map_outcome f panic = panic

abbrev pub wrap_outcome {ℓ} : {A : Type ℓ} → String → Outcome A → Outcome A
wrap_outcome text (ok a) = ok a
wrap_outcome text (err e) = err (wrapped text e)
wrap_outcome text panic = panic

pub ok_injective {ℓ} : {A : Type ℓ} {a b : A} → ok a ≡ ok b → a ≡ b
ok_injective e = cc e

pub some_injective {ℓ} : {A : Type ℓ} {a b : A} → some a ≡ some b → a ≡ b
some_injective e = cc e
