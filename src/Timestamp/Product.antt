-- ===== src/Timestamp/Product.antt =====
-- `detail::multiplyDivide` of TimestampRate.hpp, in both of its builds: with a 128-bit product, and
-- by binary long division for compilers that have none.
pub mod Exact
use Prim.Native.Nat.{bit_and}
use soapy_sidekiq.Base.{ℕ, zero, suc, ◌*◌, ◌/◌, ◌%◌, ◌^◌, leb, ◌==◌, if◌then◌else◌}
use soapy_sidekiq.Base.Words.{u64, add64, sub64, mul64}

pub record ProductDivision : Type 0 where
  pub quotient : ℕ
  pub remainder : ℕ

-- `unsigned __int128` product, and the casts of its quotient and remainder.
unfoldable pub multiply_divide : ℕ → ℕ → ℕ → ProductDivision
multiply_divide value multiplier divisor =
    let product = (value * multiplier) % 2 ^ 128 in
    record { quotient = (product / divisor) % u64; remainder = (product % divisor) % u64 }

-- `quotient *= 2`, and the remainder doubled modulo the divisor.
pub double : ℕ → ProductDivision → ProductDivision
double divisor r =
    if leb (sub64 divisor r.remainder) r.remainder
    then record {
      quotient = add64 (mul64 r.quotient 2) 1;
      remainder = sub64 r.remainder (sub64 divisor r.remainder);
    }
    else record { quotient = mul64 r.quotient 2; remainder = mul64 r.remainder 2 }

-- The remainder with `value` added modulo the divisor.
pub contribute : ℕ → ℕ → ProductDivision → ProductDivision
contribute divisor value r =
    if leb (sub64 divisor value) r.remainder
    then record {
      quotient = add64 r.quotient 1;
      remainder = sub64 r.remainder (sub64 divisor value);
    }
    else record { quotient = r.quotient; remainder = add64 r.remainder value }

-- One round of the loop, for the bit `2 ^ k` of the multiplier.
unfoldable pub long_division_round : ℕ → ℕ → ℕ → ℕ → ProductDivision → ProductDivision
long_division_round divisor value multiplier k r =
    let doubled = double divisor r in
    if bit_and multiplier (2 ^ k) == 0 then doubled else contribute divisor value doubled

-- `for (bit = 1 << (k - 1); bit != 0; bit >>= 1)`: `k` rounds, from the highest bit down.
unfoldable pub long_division : ℕ → ℕ → ℕ → ℕ → ProductDivision → ProductDivision
long_division divisor value multiplier zero r = r
long_division divisor value multiplier (suc k) r =
    long_division divisor value multiplier k (long_division_round divisor value multiplier k r)

unfoldable pub multiply_divide_portable : ℕ → ℕ → ℕ → ProductDivision
unfolding long_division long_division_round double contribute
multiply_divide_portable value multiplier divisor =
    long_division divisor value multiplier 64 (record { quotient = 0; remainder = 0 })
