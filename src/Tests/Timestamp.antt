-- ===== src/Tests/Timestamp.antt =====
-- Inputs of the timestamp conversions: 61.44 MHz and 40 MHz clocks, and an RF rate of 1.5 samples/s.
use soapy_sidekiq.Base.{
  ℕ, ◌+◌, ◌-◌, ◌*◌, ◌/◌, ◌%◌, ◌^◌, ◌≤◌, ◌≡◌, ◌⊎◌, refl, false, arith, ok, throw, some,
  overflow_error, ltb, if◌then◌else◌,
}
use soapy_sidekiq.Base.Double.{finite, at_least_pow}
use soapy_sidekiq.Base.Int.{pos}
use soapy_sidekiq.Base.Words.{int64_max, uint64_max}
use soapy_sidekiq.Timestamp.Product.{multiply_divide, multiply_divide_portable}
use soapy_sidekiq.Timestamp.Product.Exact.{multiply_divide_portable-eq}
use soapy_sidekiq.Timestamp.Conversion.{
  ticks_to_nanoseconds, ticks_to_nanoseconds_portable, nanoseconds_to_ticks, nanoseconds_per_second,
}
use soapy_sidekiq.Timestamp.Conversion.Exact.{
  within, ticks_to_nanoseconds_exact, ticks_to_nanoseconds_portable-eq, nanoseconds_to_ticks_exact,
}
use soapy_sidekiq.Timestamp.Conversion.RoundTrip.{ticks_round_trip, nanoseconds_round_trip}
use soapy_sidekiq.Timestamp.Rate.{TimestampRate, from_actual_rate, convert, reduce, unreduced}
use soapy_sidekiq.Timestamp.Rate.Exact.{IsProper, scaled, exact_phase, convert_exact}
use soapy_sidekiq.Timestamp.Rate.Actual.{from_actual_rate_exact}

multiply_divide_portable-eq_example :
    multiply_divide_portable 5 (2 ^ 64 - 1) 7 ≡ multiply_divide 5 (2 ^ 64 - 1) 7
multiply_divide_portable-eq_example =
    multiply_divide_portable-eq 7 5 (omega arith) (omega arith) (2 ^ 64 - 1) (omega arith)

ticks_to_nanoseconds_exact_example :
    ticks_to_nanoseconds 100 40_000_000
    ≡ within int64_max (100 * nanoseconds_per_second / 40_000_000)
ticks_to_nanoseconds_exact_example =
    ticks_to_nanoseconds_exact 100 40_000_000 (omega arith) (omega arith)

ticks_to_nanoseconds_portable-eq_example :
    ticks_to_nanoseconds_portable (2 ^ 63 + 1) (2 ^ 64 - 1)
    ≡ ticks_to_nanoseconds (2 ^ 63 + 1) (2 ^ 64 - 1)
ticks_to_nanoseconds_portable-eq_example =
    ticks_to_nanoseconds_portable-eq (2 ^ 63 + 1) (2 ^ 64 - 1) (omega arith) (omega arith)

nanoseconds_to_ticks_exact_example :
    nanoseconds_to_ticks (pos 2_500) 40_000_000
    ≡ within uint64_max (2_500 * 40_000_000 / nanoseconds_per_second)
nanoseconds_to_ticks_exact_example =
    nanoseconds_to_ticks_exact 2_500 40_000_000 (omega arith) (omega arith)

ticks_round_trip_example :
    (k : ℕ) × (nanoseconds_to_ticks (pos 2_500) 40_000_000 ≡ ok k) × (k ≤ 100) × (100 ≤ k + 1)
unfolding ticks_to_nanoseconds
ticks_round_trip_example =
    ticks_round_trip 100 40_000_000 2_500 (omega arith) (omega arith) (omega arith) refl

nanoseconds_round_trip_example :
    (k : ℕ) × (ticks_to_nanoseconds 14 2_000_000_000 ≡ ok k) × (k ≤ 7) × (7 ≤ k + 1)
unfolding nanoseconds_to_ticks
nanoseconds_round_trip_example =
    nanoseconds_round_trip 7 2_000_000_000 14 (omega arith) (omega arith) (omega arith) refl

abbrev one_and_a_half : TimestampRate
one_and_a_half = record { numerator = 3; denominator = 2 }

convert_exact_example : convert one_and_a_half 1 ≡ (
    if ltb int64_max (scaled one_and_a_half 1 / 3)
    then throw overflow_error
    else ok (exact_phase one_and_a_half 1))
convert_exact_example = convert_exact one_and_a_half 1 (omega arith) (omega arith)

-- 1.5 is 1.5 * 2 ^ 52 over 2 ^ 52, with the exponent 1 of `frexp`.
from_actual_rate_exact_example :
    (rate : TimestampRate) × (from_actual_rate (finite false (3 * 2 ^ 51) (pos 1)) ≡ ok (some rate))
    × (rate.numerator * 2 ^ 52 ≡ 3 * 2 ^ 51 * rate.denominator)
    × ((rate.denominator ≡ 1) ⊎ (rate.numerator % 2 ≡ 1))
    × IsProper rate
from_actual_rate_exact_example =
    from_actual_rate_exact (3 * 2 ^ 51) 1 (omega arith) (omega arith) (omega arith)

reduced : from_actual_rate (finite false (3 * 2 ^ 51) (pos 1)) ≡ ok (some one_and_a_half)
unfolding from_actual_rate at_least_pow unreduced reduce
reduced = refl

-- Two thirds of a second, with two thirds of a nanosecond left.
converted :
    convert one_and_a_half 1
    ≡ ok (record { nanoseconds = 666_666_666; remainder = 2; denominator = 3 })
unfolding convert multiply_divide
converted = refl
