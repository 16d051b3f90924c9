-- ===== src/Timestamp/Rate.antt =====
-- `TimestampRate` and `TimestampPhase` of include/SoapySidekiq/TimestampRate.hpp.
pub mod Exact
pub mod Actual
use Prim.Native.Nat.{bit_and}
use soapy_sidekiq.Base.{
  ℕ, zero, suc, ◌-◌, ◌*◌, ◌/◌, ◌%◌, ◌^◌, Bool, true, false, not, ◌&&◌, ◌||◌, Outcome, ok, throw,
  Option, none, some, invalid_argument, overflow_error, leb, ltb, ◌==◌, if◌then◌else◌,
}
use soapy_sidekiq.Base.Double.{Double, not_finite, finite, at_least_pow, digits}
use soapy_sidekiq.Base.Double
use soapy_sidekiq.Base.Int.{ℤ, pos, negsuc, pos_part}
use soapy_sidekiq.Base.Words.{u64, int64_max, add64, sub64, mul64}
use soapy_sidekiq.Timestamp.Conversion.{nanoseconds_per_second}
use soapy_sidekiq.Timestamp.Product.{ProductDivision, multiply_divide}

pub record TimestampPhase : Type 0 where
  pub nanoseconds : ℕ
  pub remainder : ℕ
  pub denominator : ℕ

-- Ticks per second, as a fraction; numerator 0 is unset.
pub record TimestampRate : Type 0 where
  pub numerator : ℕ
  pub denominator : ℕ

-- The constructor for an integer clock.
abbrev pub from_frequency : ℕ → TimestampRate
from_frequency frequency = record { numerator = frequency; denominator = 1 }

abbrev pub is_valid : TimestampRate → Bool
is_valid rate = not (rate.numerator == 0)

-- `while (denominator > 1 && (numerator & 1) == 0)`; `none` means that the fuel ran out.
unfoldable pub reduce : ℕ → TimestampRate → Option TimestampRate
reduce zero rate = none
reduce (suc fuel) rate =
    let halved =
      reduce fuel (record { numerator = rate.numerator / 2; denominator = rate.denominator / 2 }) in
    if ltb 1 rate.denominator && bit_and rate.numerator 1 == 0 then halved else some rate

-- The fraction before it is reduced: the mantissa over, or times, a power of two.
unfoldable pub unreduced : ℕ → ℕ → TimestampRate
unreduced mantissa exponent =
    if leb digits exponent
    then record { numerator = mul64 mantissa (2 ^ (exponent - digits)); denominator = 1 }
    else record { numerator = mantissa; denominator = 2 ^ (digits - exponent) % u64 }

-- `fromActualRate`, with as many rounds as the denominator has bits.
unfoldable pub from_actual_rate : Double → Outcome (Option TimestampRate)
from_actual_rate not_finite = throw invalid_argument
from_actual_rate Double.zero = throw invalid_argument
from_actual_rate (finite negative mantissa exponent) =
    if not (at_least_pow (finite negative mantissa exponent) 0)
      || at_least_pow (finite negative mantissa exponent) 32
    then throw invalid_argument
    else ok (reduce 64 (unreduced mantissa (pos_part exponent)))

-- `convert`.
unfoldable pub convert : TimestampRate → ℕ → Outcome TimestampPhase
convert rate ticks =
    let seconds_limit = int64_max / nanoseconds_per_second in
    let whole = ticks / rate.numerator in
    let whole_seconds = mul64 whole rate.denominator in
    let fraction = multiply_divide (ticks % rate.numerator) rate.denominator rate.numerator in
    let seconds = add64 whole_seconds fraction.quotient in
    let phase = multiply_divide fraction.remainder nanoseconds_per_second rate.numerator in
    let nanoseconds = mul64 seconds nanoseconds_per_second in
    if not (is_valid rate)
    then throw invalid_argument
    else if ltb (seconds_limit / rate.denominator) whole
    then throw overflow_error
    else if ltb (sub64 seconds_limit whole_seconds) fraction.quotient
    then throw overflow_error
    else if ltb (sub64 int64_max nanoseconds) phase.quotient
    then throw overflow_error
    else ok (record {
      nanoseconds = add64 nanoseconds phase.quotient;
      remainder = phase.remainder;
      denominator = rate.numerator;
    })
