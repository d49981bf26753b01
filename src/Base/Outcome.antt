-- ===== src/Base/Outcome.antt =====
-- A Python computation that may raise: its value, or the kind of the exception.
use mathlib.Core.Path.{◌≡◌, refl}
use mathlib.Core.Bool.{Bool, true, false}
use mathlib.Core.Option.{Option, none, some}
use mathlib.Core.Logic.{◌⊎◌, inl, inr}

-- `out_of_fuel` is no exception of Python: it marks a loop of the model whose bound was too small.
pub data Exc : Type 0 where
  index_error value_error overflow_error type_error attribute_error unicode_error : Exc
  key_error json_error os_error out_of_fuel : Exc

pub data Outcome {ℓ} (A : Type ℓ) : Type ℓ where
  ok : A → Outcome A
  err : Exc → Outcome A

infixl 5 ◌>>=◌ ◌>>◌
abbrev pub ◌>>=◌ {ℓ κ} : {A : Type ℓ} {B : Type κ} → Outcome A → (A → Outcome B) → Outcome B
ok a >>= f = f a
err e >>= f = err e

abbrev pub ◌>>◌ {ℓ} : {B : Type ℓ} → Outcome (Unit {0}) → Outcome B → Outcome B
m >> k = m >>= λ _. k

abbrev pub guard : Bool → Exc → Outcome (Unit {0})
guard true e = ok tt
guard false e = err e

abbrev pub or_raise {ℓ} : {A : Type ℓ} → Option A → Exc → Outcome A
or_raise none e = err e
or_raise (some a) e = ok a

pub Outcome-cases {ℓ} :
    {A : Type ℓ} (r : Outcome A) → ((a : A) × (r ≡ ok a)) ⊎ ((e : Exc) × (r ≡ err e))
Outcome-cases (ok a) = inl (a, refl)
Outcome-cases (err e) = inr (e, refl)

pub ok-inj {ℓ} : {A : Type ℓ} {a b : A} → ok a ≡ ok b → a ≡ b
ok-inj h = cc
