-- ===== src/Base/Outcome.antt =====
-- The result of C code that may be undefined, or that a bounded number of rounds did not finish.
use mathlib.Core.Option.{Option, none, some}

pub data Outcome {ℓ} (A : Type ℓ) : Type ℓ where
  done : A → Outcome A
  undefined : Outcome A
  out_of_fuel : Outcome A

-- an access that is undefined out of range
abbrev pub defined {ℓ} : {A : Type ℓ} → Option A → Outcome A
defined none = undefined
defined (some a) = done a

infixl 5 ◌>>=◌
abbrev pub ◌>>=◌ {ℓ κ} : {A : Type ℓ} {B : Type κ} → Outcome A → (A → Outcome B) → Outcome B
done a >>= k = k a
undefined >>= k = undefined
out_of_fuel >>= k = out_of_fuel
