-- ===== src/Base/Outcome.antt =====
-- What a run of the code comes to: a value, or the end of the process.
use mathlib.Core.Path.{◌≡◌, refl}
use mathlib.Core.Bool.{Bool, true, false}
use mathlib.Core.Logic.{◌⊎◌, inl, inr}

-- `assertion` is a failed `assert`, `fatal_error` is `Utils::fatalError`, `undefined` is
-- behaviour that C++ leaves undefined, `exited` is a call of `exit(EXIT_FAILURE)`. `no_fuel` is no
-- outcome of the code: a loop of the model has used up its bound.
pub data Fault : Type 0 where
  assertion fatal_error undefined exited no_fuel : Fault

pub data Outcome {ℓ} (A : Type ℓ) : Type ℓ where
  ok : A → Outcome A
  fault : Fault → Outcome A

infixl 5 ◌>>=◌ ◌>>◌
abbrev pub ◌>>=◌ {ℓ κ} : {A : Type ℓ} {B : Type κ} → Outcome A → (A → Outcome B) → Outcome B
ok a >>= f = f a
fault e >>= f = fault e

abbrev pub ◌>>◌ {ℓ} : {B : Type ℓ} → Outcome (Unit {0}) → Outcome B → Outcome B
m >> k = m >>= λ _. k

-- `assert(b)`.
abbrev pub assert : Bool → Outcome (Unit {0})
assert true = ok tt
assert false = fault assertion

pub Outcome-cases {ℓ} :
    {A : Type ℓ} (o : Outcome A) → ((a : A) × (o ≡ ok a)) ⊎ ((e : Fault) × (o ≡ fault e))
Outcome-cases (ok a) = inl (a, refl)
Outcome-cases (fault e) = inr (e, refl)

-- The run ends with a value.
abbrev pub Returns {ℓ} : {A : Type ℓ} → Outcome A → (A → Type 0) → Type 0
Returns (ok a) P = P a
Returns (fault e) P = ⊥
