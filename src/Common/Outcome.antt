-- ===== src/Common/Outcome.antt =====
-- Go's pair of a value and an error: the value counts only where the error is nil.
use Prim.Native.String.{String}

-- The errors that the callers tell apart, by `errors.Is`, and all others by their text.
pub data Error : Type 0 where
  forbidden not_found invalid_input invalid_credentials dcs_not_configured : Error
  other : String → Error

pub data Result {ℓ} (A : Type ℓ) : Type ℓ where
  ok : A → Result A
  err : Error → Result A

infixl 5 ◌>>=◌
abbrev pub ◌>>=◌ {ℓ κ} : {A : Type ℓ} {B : Type κ} → Result A → (A → Result B) → Result B
ok a >>= f = f a
err e >>= f = err e
