-- ===== src/Timestamp/Conversion.antt =====
-- include/SoapySidekiq/TimestampConversion.hpp: ticks to nanoseconds, in both builds, and back.
-- A signed timestamp that the code has checked to be nonnegative is a number.
pub mod Exact
pub mod RoundTrip
use Prim.Native.Nat.{bit_and}
use soapy_sidekiq.Base.{
  ℕ, zero, suc, ◌+◌, ◌-◌, ◌*◌, ◌/◌, ◌%◌, ◌^◌, Outcome, ok, throw, Exception, invalid_argument,
  overflow_error, ltb, ◌==◌, ◌||◌, if◌then◌else◌,
}
use soapy_sidekiq.Base.Int.{ℤ, pos, negsuc, ltb_ℤ, pos_part}
use soapy_sidekiq.Base.Words.{u64, int64_max, uint64_max, add64, sub64, mul64}
use soapy_sidekiq.Timestamp.Product.{ProductDivision, double, contribute}

abbrev pub nanoseconds_per_second : ℕ
nanoseconds_per_second = 1_000_000_000

-- With `unsigned __int128`.
unfoldable pub ticks_to_nanoseconds : ℕ → ℕ → Outcome ℕ
ticks_to_nanoseconds ticks frequency =
    let nanoseconds = (ticks * nanoseconds_per_second) % 2 ^ 128 / frequency in
    if frequency == 0
    then throw invalid_argument
    else if ltb int64_max nanoseconds
    then throw overflow_error
    else ok nanoseconds

-- One round of the loop of the portable build, for the bit `2 ^ k` of the multiplier.
pub fraction_round : ℕ → ℕ → ℕ → ProductDivision → ProductDivision
fraction_round frequency remaining_ticks k r =
    let doubled = double frequency r in
    if bit_and nanoseconds_per_second (2 ^ k) == 0
    then doubled
    else contribute frequency remaining_ticks doubled

-- `for (bit = 1U << (k - 1); bit != 0; bit >>= 1)`: `k` rounds, from the highest bit down.
pub fraction_loop : ℕ → ℕ → ℕ → ProductDivision → ProductDivision
fraction_loop frequency remaining_ticks zero r = r
fraction_loop frequency remaining_ticks (suc k) r =
    fraction_loop frequency remaining_ticks k (fraction_round frequency remaining_ticks k r)

-- Without: whole seconds, and a long division for the fraction of a second.
unfoldable pub ticks_to_nanoseconds_portable : ℕ → ℕ → Outcome ℕ
ticks_to_nanoseconds_portable ticks frequency =
    let whole_seconds = ticks / frequency in
    let fractional =
      (fraction_loop frequency (ticks % frequency) 30
        (record { quotient = 0; remainder = 0 })).quotient in
    let whole_nanoseconds = mul64 whole_seconds nanoseconds_per_second in
    if frequency == 0
    then throw invalid_argument
    else if ltb (int64_max / nanoseconds_per_second) whole_seconds
    then throw overflow_error
    else if ltb (sub64 int64_max whole_nanoseconds) fractional
    then throw overflow_error
    else ok (add64 whole_nanoseconds fractional)

unfoldable pub nanoseconds_to_ticks : ℤ → ℕ → Outcome ℕ
nanoseconds_to_ticks nanoseconds frequency =
    let time = pos_part nanoseconds in
    let seconds = time / nanoseconds_per_second in
    let remainder = time % nanoseconds_per_second in
    let whole = mul64 seconds frequency in
    let fractional =
      add64 (mul64 (frequency / nanoseconds_per_second) remainder)
        (mul64 (frequency % nanoseconds_per_second) remainder / nanoseconds_per_second) in
    if ltb_ℤ nanoseconds (pos 0) || frequency == 0
    then throw invalid_argument
    else if ltb (uint64_max / frequency) seconds
    then throw overflow_error
    else if ltb (sub64 uint64_max whole) fractional
    then throw overflow_error
    else ok (add64 whole fractional)
