-- ===== src/Timestamp/Rate/Exact.antt =====
-- `convert` gives the exact time of a tick count, as whole nanoseconds and a fraction.
use native.Mathlib.Nat.{mod-lt, le-div_iff_mul-le, div-lt_iff_lt-mul}
use soapy_sidekiq.Base.{
  ℕ, ◌+◌, ◌*◌, ◌/◌, ◌%◌, ◌≤◌, ◌<◌, false, ◌==◌, ◌≡◌, ◌∙◌, inl, inr, arith, ltb, ltb→lt, ltb→le,
  Bool-cases, Outcome, ok, throw, overflow_error, if◌then◌else◌,
}
use soapy_sidekiq.Base.Words.{u64, IsU64, int64_max, add64, sub64, mul64, mul64_exact}
use soapy_sidekiq.Base.Division.{mul-div_lt, mul-div_le, split_quotient, split_remainder}
use soapy_sidekiq.Timestamp.Conversion.{nanoseconds_per_second}
use soapy_sidekiq.Timestamp.Product.{multiply_divide}
use soapy_sidekiq.Timestamp.Product.Exact.{multiply_divide_exact}
use soapy_sidekiq.Timestamp.Rate.{TimestampRate, TimestampPhase, convert}

pub record IsProper (rate : TimestampRate) : Type 0 where
  pub numerator_word : IsU64 rate.numerator
  pub denominator_word : IsU64 rate.denominator
  pub numerator_positive : 0 < rate.numerator
  pub denominator_positive : 0 < rate.denominator

-- The exact scaled time of `ticks`: nanoseconds times the numerator.
abbrev pub scaled : TimestampRate → ℕ → ℕ
scaled rate ticks = ticks * rate.denominator * nanoseconds_per_second

abbrev pub exact_phase : TimestampRate → ℕ → TimestampPhase
exact_phase rate ticks = record {
  nanoseconds = scaled rate ticks / rate.numerator;
  remainder = scaled rate ticks % rate.numerator;
  denominator = rate.numerator;
}

abbrev seconds_limit : ℕ
seconds_limit = int64_max / nanoseconds_per_second

abbrev phase_of : ℕ → ℕ → ℕ → Outcome TimestampPhase
phase_of n r d = ok (record { nanoseconds = n; remainder = r; denominator = d })

-- The last two checks, at exact whole seconds.
phase_checks :
    (s q p r d : ℕ)
    → s ≤ seconds_limit
    → q < u64
    → p < nanoseconds_per_second
    → (if ltb (sub64 seconds_limit s) q
        then throw overflow_error
        else if ltb (sub64 int64_max (mul64 (add64 s q) nanoseconds_per_second)) p
        then throw overflow_error
        else phase_of (add64 (mul64 (add64 s q) nanoseconds_per_second) p) r d)
      ≡ (let n = (s + q) * nanoseconds_per_second + p in
          if ltb int64_max n then throw overflow_error else phase_of n r d)
phase_checks s q p r d hs hq hp = ground arith

module _ (rate : TimestampRate) (ticks : ℕ) (v : IsProper rate) (ht : IsU64 ticks) where
  open rate use {numerator, denominator}

  left : ℕ
  left = ticks % numerator

  left-lt : left < numerator
  unfolding left
  left-lt = mod-lt ticks v.numerator_positive

  -- The whole nanoseconds as the code splits them.
  split_time :
      scaled rate ticks / numerator
      ≡ (ticks / numerator * denominator + left * denominator / numerator) * nanoseconds_per_second
        + left * denominator % numerator * nanoseconds_per_second / numerator
  unfolding left
  split_time =
      split_quotient (ticks * denominator) nanoseconds_per_second numerator v.numerator_positive
      ∙ rw (
        split_quotient ticks denominator numerator v.numerator_positive,
        split_remainder ticks denominator numerator v.numerator_positive,
      )

  split_phase :
      scaled rate ticks % numerator
      ≡ left * denominator % numerator * nanoseconds_per_second % numerator
  unfolding left
  split_phase =
      split_remainder (ticks * denominator) nanoseconds_per_second numerator v.numerator_positive
      ∙ rw (split_remainder ticks denominator numerator v.numerator_positive)

-- A conversion is the exact time in whole nanoseconds with the exact fraction that is left, or an
-- overflow exactly when the whole nanoseconds exceed the signed range.
pub convert_exact :
    (rate : TimestampRate) (ticks : ℕ)
    → IsProper rate
    → IsU64 ticks
    → convert rate ticks ≡ (
        if ltb int64_max (scaled rate ticks / rate.numerator)
        then throw overflow_error
        else ok (exact_phase rate ticks))
unfolding convert left
convert_exact rate ticks v ht =
    rw
      (
        fraction.0,
        fraction.1,
        phase.0,
        phase.1,
        set,
        split_time rate ticks v ht,
        split_phase rate ticks v ht,
      )
      (elim (Bool-cases (ltb (seconds_limit / den) (ticks / num))) [
        | inl t ↦ rw t (ground (arith, over (ltb→lt _ _ t)))
        | inr u ↦
            rw (u, mul64_exact (ticks / num) den (omega (arith, fits (ltb→le _ _ u))))
              (phase_checks _ _ _ _ _ (fits (ltb→le _ _ u))
                (omega
                  (arith, mul-div_le (ticks % num) den num (mod-lt ticks v.numerator_positive)))
                (mul-div_lt _ _ num (mod-lt (ticks % num * den) v.numerator_positive)
                  (omega arith)))
      ])
  where
    num : ℕ
    num = rate.numerator

    den : ℕ
    den = rate.denominator

    fraction :
        ((multiply_divide (ticks % num) den num).quotient ≡ ticks % num * den / num)
        × ((multiply_divide (ticks % num) den num).remainder ≡ ticks % num * den % num)
    fraction =
        multiply_divide_exact num (ticks % num) v.numerator_word (mod-lt ticks v.numerator_positive)
          den v.denominator_word

    phase :
        ((multiply_divide (ticks % num * den % num) nanoseconds_per_second num).quotient
          ≡ ticks % num * den % num * nanoseconds_per_second / num)
        × ((multiply_divide (ticks % num * den % num) nanoseconds_per_second num).remainder
            ≡ ticks % num * den % num * nanoseconds_per_second % num)
    phase =
        multiply_divide_exact num (ticks % num * den % num) v.numerator_word
          (mod-lt (ticks % num * den) v.numerator_positive) nanoseconds_per_second (omega arith)

    set : (num == 0) ≡ false
    set = ground arith

    over : seconds_limit / den < ticks / num → seconds_limit < ticks / num * den
    over k =
        (div-lt_iff_lt-mul {k = den} {x = seconds_limit} {y = ticks / num} v.denominator_positive).0
          k

    fits : ticks / num ≤ seconds_limit / den → ticks / num * den ≤ seconds_limit
    fits k =
        (le-div_iff_mul-le {k = den} {x = ticks / num} {y = seconds_limit} v.denominator_positive).0
          k
