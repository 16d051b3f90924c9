-- ===== src/Base/Conversion.antt =====
-- include/SoapySidekiq/NumericConversion.hpp: `checkedUnsigned`, from a double to an unsigned integer.
use Prim.Native.Nat.{ℕ, ◌+◌, ◌*◌, ◌/◌, ◌^◌, ◌≤◌, ◌<◌}
use mathlib.Core.Bool.{Bool, true, false, ◌||◌}
use mathlib.Core.Logic.{inl, inr, ◌⊎◌}
use mathlib.Core.Path.{◌≡◌, refl}
use native.Mathlib.Nat.{
  pow-le-pow_right, one-le-pow, div-lt_iff_lt-mul, div-mul-le_self, lt-div-mul-add,
  mul-lt-mul_of_pos_right,
}
use native.Mathlib.Omega.{arith}
use soapy_sidekiq.Base.Double.{Double, not_finite, finite, IsDouble, at_least_pow}
use soapy_sidekiq.Base.Int.{ℤ, pos, negsuc, ◌≤ℤ◌, ◌<ℤ◌}
use soapy_sidekiq.Base.Outcomes.{Outcome, ok, throw, invalid_argument}
use soapy_sidekiq.Base.Tests.{if◌then◌else◌}

-- The integral part of mantissa * 2 ^ (exponent - 53), toward zero.
unfoldable pub truncate : ℕ → ℤ → ℕ
truncate mantissa (pos e) = mantissa * 2 ^ e / 2 ^ 53
truncate mantissa (negsuc e) = 0

-- `checkedUnsigned`, into an integer of `digits` bits. The limit is 2 ^ digits.
unfoldable pub checked_unsigned : ℕ → Double → Outcome ℕ
checked_unsigned digits not_finite = throw invalid_argument
checked_unsigned digits Double.zero = ok 0
checked_unsigned digits (finite negative mantissa exponent) =
    if negative || at_least_pow (finite negative mantissa exponent) digits
    then throw invalid_argument
    else ok (truncate mantissa exponent)

truncate_bound :
    (digits mantissa : ℕ) (exponent : ℤ)
    → mantissa < 2 ^ 53
    → at_least_pow (finite false mantissa exponent) digits ≡ false
    → truncate mantissa exponent < 2 ^ digits
unfolding truncate at_least_pow
truncate_bound digits m (negsuc e) h s = one-le-pow digits 2 (omega arith)
truncate_bound digits m (pos e) h s =
    (div-lt_iff_lt-mul {k = 2 ^ 53} {x = m * 2 ^ e} {y = 2 ^ digits} (omega arith)).1 (
      omega (
        arith,
        mul-lt-mul_of_pos_right {m = m} {n = 2 ^ 53} {k = 2 ^ e} h (one-le-pow e 2 (omega arith)),
        pow-le-pow_right {n = 2} (omega arith) {i = e} {j = digits} (ground arith),
      ))

abbrev pub IsFloor : ℕ → ℕ → ℤ → Type 0
IsFloor n mantissa (pos e) =
    (n * 2 ^ 53 ≤ mantissa * 2 ^ e) × (mantissa * 2 ^ e < n * 2 ^ 53 + 2 ^ 53)
IsFloor n mantissa (negsuc e) = n ≡ 0

truncate-IsFloor :
    (mantissa : ℕ) (exponent : ℤ) → IsFloor (truncate mantissa exponent) mantissa exponent
unfolding truncate
truncate-IsFloor m (negsuc e) = refl
truncate-IsFloor m (pos e) = (
  div-mul-le_self (m * 2 ^ e) (2 ^ 53),
  lt-div-mul-add {a = m * 2 ^ e} {b = 2 ^ 53} (omega arith),
)

-- What holds of an answer of `checkedUnsigned`.
abbrev pub IsChecked : ℕ → Double → Outcome ℕ → Type 0
IsChecked digits not_finite o = o ≡ throw invalid_argument
IsChecked digits Double.zero o = o ≡ ok 0
IsChecked digits (finite negative mantissa exponent) (ok n) =
    (negative ≡ false) × (exponent ≤ℤ pos digits) × (n < 2 ^ digits) × IsFloor n mantissa exponent
IsChecked digits (finite negative mantissa exponent) (throw e) =
    (negative ≡ true) ⊎ (pos digits <ℤ exponent)

-- `checkedUnsigned` for an integer of any width rejects infinities and NaN, negative numbers and numbers of
-- 2 ^ digits or more, and nothing else; it accepts zero; and what it returns otherwise fits the integer and
-- is the double's integral part, exactly.
pub checked_unsigned-IsChecked :
    (digits : ℕ) (x : Double) → IsDouble x → IsChecked digits x (checked_unsigned digits x)
unfolding checked_unsigned at_least_pow
checked_unsigned-IsChecked digits not_finite h = refl
checked_unsigned-IsChecked digits Double.zero h = refl
checked_unsigned-IsChecked digits (finite true mantissa exponent) h = inl refl
checked_unsigned-IsChecked digits (finite false mantissa exponent) h =
    by_size (at_least_pow (finite false mantissa exponent) digits) refl
  where
    by_size :
        (b : Bool)
        → at_least_pow (finite false mantissa exponent) digits ≡ b
        → IsChecked digits
            (finite false mantissa exponent)
            (if b then throw invalid_argument else ok (truncate mantissa exponent))
    by_size true s = inr (ground arith)
    by_size false s = (
      refl,
      ground arith,
      truncate_bound digits mantissa exponent h.1 s,
      truncate-IsFloor mantissa exponent,
    )
