-- ===== src/Base/Double.antt =====
-- An IEEE double as `std::frexp` takes it apart: the value is mantissa * 2 ^ (exponent - 53), with a
-- mantissa from 2 ^ 52 up to 2 ^ 53. `not_finite` is an infinity or a NaN.
use soapy_sidekiq.Base.{ℕ, ◌^◌, ◌≤◌, ◌<◌, Bool, false, not, ◌&&◌}
use soapy_sidekiq.Base.Int.{ℤ, pos, ltb_ℤ}

pub data Double : Type 0 where
  not_finite : Double
  zero : Double
  finite : (negative : Bool) (mantissa : ℕ) (exponent : ℤ) → Double

abbrev pub digits : ℕ
digits = 53

abbrev pub IsNormal : ℕ → Type 0
IsNormal mantissa = (2 ^ 52 ≤ mantissa) × (mantissa < 2 ^ 53)

-- `value >= std::ldexp(1.0, k)`, by the exponent of a normal number.
unfoldable pub at_least_pow : Double → ℕ → Bool
at_least_pow not_finite k = false
at_least_pow zero k = false
at_least_pow (finite negative mantissa exponent) k = not negative && ltb_ℤ (pos k) exponent

-- A finite number other than zero is normal.
abbrev pub IsDouble : Double → Type 0
IsDouble not_finite = Unit
IsDouble zero = Unit
IsDouble (finite negative mantissa exponent) = IsNormal mantissa
