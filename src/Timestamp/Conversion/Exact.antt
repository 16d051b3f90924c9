-- ===== src/Timestamp/Conversion/Exact.antt =====
-- Both builds of `ticksToNanoseconds` truncate the exact quotient, and so does `nanosecondsToTicks`.
use native.Mathlib.Nat.{
  mod-eq_of_lt, mod-lt, mul-le-mul, mul_comm, le-div_iff_mul-le, div-lt_iff_lt-mul,
}
use soapy_sidekiq.Base.{
  Outcome, ℕ, zero, suc, ◌+◌, ◌-◌, ◌*◌, ◌/◌, ◌%◌, ◌^◌, ◌≤◌, ◌<◌, ◌≡◌, ◌↔◌, ltb→lt, ltb→le, refl,
  sym, ap, ◌∙◌, ◌⊎◌, inl, inr, arith, ltb, Bool-cases, ok, throw, invalid_argument, overflow_error,
  if◌then◌else◌,
}
use soapy_sidekiq.Base.Int.{ℤ, pos, ◌<ℤ◌}
use soapy_sidekiq.Base.Words.{u64, add64, sub64, mul64, int64_max, uint64_max, IsU64, mul64_exact}
use soapy_sidekiq.Base.Division.{div_unique, mul-div_lt, split_quotient}
use soapy_sidekiq.Timestamp.Product.{ProductDivision, long_division, long_division_round}
use soapy_sidekiq.Timestamp.Product.Exact.{Divides, long_division-Divides}
use soapy_sidekiq.Timestamp.Conversion.{
  nanoseconds_per_second, ticks_to_nanoseconds, fraction_round, fraction_loop,
  ticks_to_nanoseconds_portable, nanoseconds_to_ticks,
}

-- The exact number, where it does not exceed `limit`.
abbrev pub within : ℕ → ℕ → Outcome ℕ
within limit n = if ltb limit n then throw overflow_error else ok n

product_fits : (t b : ℕ) → IsU64 t → b < u64 → t * b < 2 ^ 128
product_fits t b ht hb = omega (
  arith,
  mul-le-mul {n₁ = t} {m₁ = b} {n₂ = 2 ^ 64 - 1} {m₂ = 2 ^ 64 - 1} (omega arith) (omega arith),
)

-- Ticks convert to the exact number of nanoseconds, truncated, or overflow beyond the signed range.
pub ticks_to_nanoseconds_exact :
    (ticks frequency : ℕ)
    → IsU64 ticks
    → 0 < frequency
    → ticks_to_nanoseconds ticks frequency
      ≡ within int64_max (ticks * nanoseconds_per_second / frequency)
unfolding ticks_to_nanoseconds
ticks_to_nanoseconds_exact t f ht hf =
    rw
      (mod-eq_of_lt {n = t * nanoseconds_per_second} {m = 2 ^ 128}
        (product_fits t _ ht (omega arith)))
      (ground arith)

fraction_loop-eq-long_division :
    (f v k : ℕ) (r : ProductDivision)
    → fraction_loop f v k r ≡ long_division f v nanoseconds_per_second k r
unfolding fraction_loop fraction_round long_division long_division_round
fraction_loop-eq-long_division f v zero r = refl
fraction_loop-eq-long_division f v (suc k) r = fraction_loop-eq-long_division f v k _

fraction_exact :
    (f v : ℕ)
    → IsU64 f
    → v < f
    → (fraction_loop f v 30 (record { quotient = 0; remainder = 0 })).quotient
      ≡ v * nanoseconds_per_second / f
fraction_exact f v hf hv =
    rw (fraction_loop-eq-long_division f v 30) (sym (div_unique _ f _ _ done.exact done.small))
  where
    start : ProductDivision
    start = record { quotient = 0; remainder = 0 }

    done : Divides f v nanoseconds_per_second (long_division f v nanoseconds_per_second 30 start)
    done =
        long_division-Divides f v hf hv nanoseconds_per_second 30 start (omega arith) (omega arith)

-- The checks of the portable build, at the exact seconds and fraction.
portable_checks :
    (w fr : ℕ)
    → fr < nanoseconds_per_second
    → (if ltb (int64_max / nanoseconds_per_second) w
        then throw overflow_error
        else if ltb (sub64 int64_max (mul64 w nanoseconds_per_second)) fr
        then throw overflow_error
        else ok (add64 (mul64 w nanoseconds_per_second) fr))
      ≡ within int64_max (w * nanoseconds_per_second + fr)
portable_checks w fr h = ground arith

-- The portable build agrees with the 128-bit one on every input, errors included.
pub ticks_to_nanoseconds_portable-eq :
    (ticks frequency : ℕ)
    → IsU64 ticks
    → IsU64 frequency
    → ticks_to_nanoseconds_portable ticks frequency ≡ ticks_to_nanoseconds ticks frequency
unfolding ticks_to_nanoseconds_portable ticks_to_nanoseconds
ticks_to_nanoseconds_portable-eq t zero ht hf = refl
ticks_to_nanoseconds_portable-eq t (suc f) ht hf =
    rw
      (
        fraction_exact (suc f) (t % suc f) hf (mod-lt t {m = suc f} (omega arith)),
        portable_checks (t / suc f) _
            (mul-div_lt (t % suc f) _ (suc f) (mod-lt t {m = suc f} (omega arith)) (omega arith)),
        ← split_quotient t nanoseconds_per_second (suc f) (omega arith),
      )
      (ground (arith, ticks_to_nanoseconds_exact t (suc f) ht (omega arith)))

-- The two partial products of `nanosecondsToTicks` add up to the exact fraction of a second.
fraction_of_ticks :
    (f r : ℕ)
    → f / nanoseconds_per_second * r + f % nanoseconds_per_second * r / nanoseconds_per_second
      ≡ r * f / nanoseconds_per_second
fraction_of_ticks f r =
    sym (split_quotient f r nanoseconds_per_second (omega arith))
    ∙ ap (λ k. k / nanoseconds_per_second) (mul_comm f r)

-- The checks of `nanosecondsToTicks`, with the products that do not wrap.
ticks_checks :
    (s f a b : ℕ)
    → a + b < f
    → IsU64 f
    → (if ltb (uint64_max / f) s
        then throw overflow_error
        else if ltb (sub64 uint64_max (mul64 s f)) (add64 a b)
        then throw overflow_error
        else ok (add64 (mul64 s f) (add64 a b)))
      ≡ within uint64_max (s * f + (a + b))
ticks_checks s f a b h hf = elim (Bool-cases (ltb (uint64_max / f) s)) [
  | inl t ↦ rw t (ground (arith, over (ltb→lt _ _ t)))
  | inr u ↦ rw (u, mul64_exact s f (fits (ltb→le _ _ u))) (ground (arith, fits (ltb→le _ _ u)))
]
  where
    over : uint64_max / f < s → uint64_max < s * f
    over k = (div-lt_iff_lt-mul {k = f} {x = uint64_max} {y = s} (omega arith)).0 k

    fits : s ≤ uint64_max / f → s * f < u64
    fits k = omega (arith, (le-div_iff_mul-le {k = f} {x = s} {y = uint64_max} (omega arith)).0 k)

-- Nanoseconds convert to the exact number of ticks, truncated, or overflow beyond 64 bits.
pub nanoseconds_to_ticks_exact :
    (nanoseconds frequency : ℕ)
    → IsU64 frequency
    → 0 < frequency
    → nanoseconds_to_ticks (pos nanoseconds) frequency
      ≡ within uint64_max (nanoseconds * frequency / nanoseconds_per_second)
unfolding nanoseconds_to_ticks
nanoseconds_to_ticks_exact n f hf h =
    rw
      (
        mul64_exact (f / nanoseconds_per_second) r (omega (arith, small)),
        mul64_exact (f % nanoseconds_per_second) r (omega (arith, product_small)),
        ticks_checks (n / nanoseconds_per_second) f _ _ small hf,
        fraction_of_ticks f r,
        ← split_quotient n f nanoseconds_per_second (omega arith),
      )
      (ground arith)
  where
    r : ℕ
    r = n % nanoseconds_per_second

    small :
        f / nanoseconds_per_second * r + f % nanoseconds_per_second * r / nanoseconds_per_second < f
    small =
        omega (arith, fraction_of_ticks f r, mul-div_lt r f nanoseconds_per_second (omega arith) h)

    product_small : f % nanoseconds_per_second * r ≤ nanoseconds_per_second * nanoseconds_per_second
    product_small =
        mul-le-mul {n₁ = f % nanoseconds_per_second} {m₁ = r} {n₂ = nanoseconds_per_second}
          {m₂ = nanoseconds_per_second} (omega arith) (omega arith)

-- It rejects exactly the negative times and the zero frequency.
pub nanoseconds_to_ticks_invalid :
    (nanoseconds : ℤ) (frequency : ℕ)
    → (nanoseconds_to_ticks nanoseconds frequency ≡ throw invalid_argument)
      ↔ ((nanoseconds <ℤ pos 0) ⊎ (frequency ≡ 0))
unfolding nanoseconds_to_ticks
nanoseconds_to_ticks_invalid n f = ground arith
