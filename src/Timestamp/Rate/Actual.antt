-- ===== src/Timestamp/Rate/Actual.antt =====
-- `fromActualRate`: the fraction is the double's exact value in lowest terms.
use Prim.Native.Nat.{bit_and}
use native.Mathlib.Nat.{pow-succ', one-le-pow, mod-eq_of_lt, pow-le-pow_right}
use soapy_sidekiq.Base.{
  ℕ, zero, suc, ◌-◌, ◌*◌, ◌/◌, ◌%◌, ◌^◌, ◌≤◌, ◌<◌, ◌≡◌, ◌⊎◌, refl, ap, ◌∙◌, false, true, Bool,
  throw, invalid_argument, ◌↔◌, inl, inr, arith, ok, some,
}
use soapy_sidekiq.Base.Bits.{bit_and-pow}
use soapy_sidekiq.Base.Double.{finite, IsNormal, at_least_pow, digits}
use soapy_sidekiq.Base.Int.{ℤ, pos, ◌≤ℤ◌, ◌<ℤ◌}
use soapy_sidekiq.Base.Words.{u64}
use soapy_sidekiq.Timestamp.Rate.{TimestampRate, reduce, unreduced, from_actual_rate}
use soapy_sidekiq.Timestamp.Rate.Exact.{IsProper}

-- `rate` is n / 2 ^ j, and it cannot be halved.
record Lowest (n j : ℕ) (rate : TimestampRate) : Type 0 where
  same_value : rate.numerator * 2 ^ j ≡ n * rate.denominator
  lowest : (rate.denominator ≡ 1) ⊎ (rate.numerator % 2 ≡ 1)
  numerator_positive : 0 < rate.numerator
  numerator_le : rate.numerator ≤ n
  denominator_positive : 0 < rate.denominator
  denominator_le : rate.denominator ≤ 2 ^ j

pow_pos : (j : ℕ) → 0 < 2 ^ j
pow_pos j = one-le-pow j 2 (omega arith)

lowest_bit : (n : ℕ) → bit_and n 1 ≡ n % 2
lowest_bit n = omega (arith, bit_and-pow n 0)

-- The test and the body of the loop.
reduce_halves :
    (fuel n d : ℕ)
    → n % 2 ≡ 0
    → 1 < d
    → reduce (suc fuel) (record { numerator = n; denominator = d })
      ≡ reduce fuel (record { numerator = n / 2; denominator = d / 2 })
unfolding reduce
reduce_halves fuel n d even h = ground (arith, lowest_bit n)

reduce_stops :
    (fuel n d : ℕ)
    → (d ≡ 1) ⊎ (n % 2 ≡ 1)
    → reduce (suc fuel) (record { numerator = n; denominator = d })
      ≡ some (record { numerator = n; denominator = d })
unfolding reduce
reduce_stops fuel n d done = ground (arith, lowest_bit n)

Lowest-double :
    (n j : ℕ) (rate : TimestampRate) → n % 2 ≡ 0 → Lowest (n / 2) j rate → Lowest n (suc j) rate
Lowest-double n j rate even v = record {
  same_value =
      rw pow-succ' (omega (arith, v.same_value, ap (λ (k : ℕ). k * rate.denominator) whole));
  lowest = v.lowest;
  numerator_positive = v.numerator_positive;
  numerator_le = omega (arith, v.numerator_le);
  denominator_positive = v.denominator_positive;
  denominator_le = rw pow-succ' (omega (arith, v.denominator_le));
}
  where
    whole : n ≡ 2 * (n / 2)
    whole = omega arith

parity : (n : ℕ) → (n % 2 ≡ 0) ⊎ (n % 2 ≡ 1)
parity n = omega arith

reduce-Lowest :
    (fuel j n : ℕ)
    → j < fuel
    → 0 < n
    → (rate : TimestampRate) × (reduce fuel (record { numerator = n; denominator = 2 ^ j })
        ≡ some rate)
      × Lowest n j rate
reduce-Lowest zero j n h p = absurd (omega arith)
reduce-Lowest (suc fuel) zero n h p =
    (record { numerator = n; denominator = 1 }, reduce_stops fuel n 1 (inl refl), grind arith)
reduce-Lowest (suc fuel) (suc j) n h p = elim (parity n) [
  | inl even ↦ halved even (reduce-Lowest fuel j (n / 2) (omega arith) (omega arith))
  | inr odd ↦ (
    record { numerator = n; denominator = 2 ^ suc j },
    reduce_stops fuel n (2 ^ suc j) (inr odd),
    record {
      same_value = refl;
      lowest = inr odd;
      numerator_positive = p;
      numerator_le = omega arith;
      denominator_positive = pow_pos (suc j);
      denominator_le = omega arith;
    },
  )
]
  where
    half : 2 * 2 ^ j / 2 ≡ 2 ^ j
    half = omega arith

    halved :
        n % 2 ≡ 0
        → (rate : TimestampRate) × (reduce fuel (record { numerator = n / 2; denominator = 2 ^ j })
            ≡ some rate)
          × Lowest (n / 2) j rate
        → (rate : TimestampRate) × (reduce
              (suc fuel)
              (record { numerator = n; denominator = 2 ^ suc j })
            ≡ some rate)
          × Lowest n (suc j) rate
    halved even (rate, e, v) = (
      rate,
      rw pow-succ' (reduce_halves fuel n (2 * 2 ^ j) even (omega (arith, pow_pos j)) ∙ rw half e),
      Lowest-double n j rate even v,
    )

pow_word : (e : ℕ) → 2 ^ (digits - e) < u64
pow_word e =
    omega
      (arith, pow-le-pow_right {n = 2} (omega arith) {i = digits - e} {j = digits} (omega arith))

accepted :
    (m e : ℕ)
    → 1 ≤ e
    → e ≤ 32
    → from_actual_rate (finite false m (pos e))
      ≡ ok (reduce 64 (record { numerator = m; denominator = 2 ^ (digits - e) }))
unfolding from_actual_rate at_least_pow unreduced
accepted m e lo hi = rw (mod-eq_of_lt {n = 2 ^ (digits - e)} {m = u64} (pow_word e)) (ground arith)

-- The rate of a double in [1, 2 ^ 32) has exactly the double's value (numerator over denominator is
-- mantissa over 2 ^ (53 - exponent)), is in lowest terms, and fits the words of `TimestampRate`; the
-- loop ends within its fuel.
pub from_actual_rate_exact :
    (mantissa exponent : ℕ)
    → IsNormal mantissa
    → 1 ≤ exponent
    → exponent ≤ 32
    → (rate : TimestampRate) × (from_actual_rate (finite false mantissa (pos exponent))
        ≡ ok (some rate))
      × (rate.numerator * 2 ^ (digits - exponent) ≡ mantissa * rate.denominator)
      × ((rate.denominator ≡ 1) ⊎ (rate.numerator % 2 ≡ 1))
      × IsProper rate
from_actual_rate_exact m e normal lo hi =
    summary (reduce-Lowest 64 (digits - e) m (omega arith) (omega arith))
  where
    summary :
        (rate : TimestampRate) × (reduce 64
              (record { numerator = m; denominator = 2 ^ (digits - e) })
            ≡ some rate)
          × Lowest m (digits - e) rate
        → (rate : TimestampRate) × (from_actual_rate (finite false m (pos e)) ≡ ok (some rate))
          × (rate.numerator * 2 ^ (digits - e) ≡ m * rate.denominator)
          × ((rate.denominator ≡ 1) ⊎ (rate.numerator % 2 ≡ 1))
          × IsProper rate
    summary (rate, found, v) = (
      rate,
      accepted m e lo hi ∙ ap ok found,
      v.same_value,
      v.lowest,
      record {
        numerator_word = omega (arith, v.numerator_le);
        denominator_word = omega (arith, v.denominator_le, pow_word e);
        numerator_positive = v.numerator_positive;
        denominator_positive = v.denominator_positive;
      },
    )

-- Of the finite doubles other than zero, exactly those are rejected that are negative or have an exponent
-- outside 1 to 32, that is, that are below 1 or not below 2 ^ 32.
pub from_actual_rate_rejects :
    (negative : Bool) (mantissa : ℕ) (exponent : ℤ)
    → (from_actual_rate (finite negative mantissa exponent) ≡ throw invalid_argument)
      ↔ ((negative ≡ true) ⊎ ((exponent ≤ℤ pos 0) ⊎ (pos 32 <ℤ exponent)))
unfolding from_actual_rate at_least_pow
from_actual_rate_rejects negative mantissa exponent = ground arith
