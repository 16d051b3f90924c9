-- ===== src/Timestamp/Product/Exact.antt =====
-- Both builds of `multiplyDivide` give the exact quotient and remainder.
use Prim.Native.Nat.{bit_and}
use native.Mathlib.Nat.{one-le-pow, div-one, div-le_self, mod-lt, mod-eq_of_lt, mul-le-mul}
use soapy_sidekiq.Base.{
  ℕ, zero, suc, ◌+◌, ◌-◌, ◌*◌, ◌/◌, ◌%◌, ◌^◌, ◌≤◌, ◌<◌, ◌≡◌, refl, true, false, sym, ◌∙◌, ◌⊎◌, inl,
  inr, arith, leb, leb→le, leb→lt, ◌==◌, ==_iff, Bool-cases,
}
use soapy_sidekiq.Base.Words.{u64, IsU64, add64_exact, sub64_exact, mul64_exact}
use soapy_sidekiq.Base.Division.{div_unique, mod_unique, mul-div_le, prefix_step}
use soapy_sidekiq.Base.Bits.{bit_and-pow}
use soapy_sidekiq.Timestamp.Product.{
  ProductDivision, multiply_divide, double, contribute, long_division_round, long_division,
  multiply_divide_portable,
}

-- What the loop has computed of the product of `value` with the prefix `p` of the multiplier.
pub record Divides (divisor value p : ℕ) (r : ProductDivision) : Type 0 where
  pub exact : r.quotient * divisor + r.remainder ≡ value * p
  pub small : r.remainder < divisor

quotient-le : (d v p q r : ℕ) → q * d + r ≡ v * p → v < d → q ≤ p
quotient-le d v p q r e h = grind arith

digit_zero : (d p : ℕ) → 0 < p → d * p ≡ 0 → d ≡ 0
digit_zero d p h e = grind arith

-- A bit that the code's mask finds is the next digit of the multiplier.
next_prefix :
    (m k : ℕ)
    → (((bit_and m (2 ^ k) == 0) ≡ false) × (m / 2 ^ k ≡ 2 * (m / 2 ^ suc k) + 1))
      ⊎ (((bit_and m (2 ^ k) == 0) ≡ true) × (m / 2 ^ k ≡ 2 * (m / 2 ^ suc k)))
next_prefix m k = elim (Bool-cases (bit_and m (2 ^ k) == 0)) [
  | inl t ↦
      let none_set : m / 2 ^ k % 2 ≡ 0 =
        digit_zero _ _ (one-le-pow k 2 (omega arith)) (sym (bit_and-pow m k) ∙ (==_iff _ 0).0 t) in
      inr (t, omega (arith, prefix_step m k))
  | inr f ↦ inl (f, grind (arith, prefix_step m k, bit_and-pow m k))
]

module _ (divisor value : ℕ) (hd : IsU64 divisor) (hv : value < divisor) where
  double-Divides :
      (p : ℕ) (r : ProductDivision)
      → 2 * p < u64
      → Divides divisor value p r
      → Divides divisor value (2 * p) (double divisor r)
  unfolding double
  double-Divides p r h v = elim (Bool-cases (leb (divisor - r.remainder) r.remainder)) [
    | inl t ↦
        let over : divisor ≤ 2 * r.remainder = omega (arith, leb→le _ _ t) in
        let exact : (r.quotient * 2 + 1) * divisor + (r.remainder - (divisor - r.remainder))
            ≡ value * (2 * p) =
          omega arith in
        let fits : r.quotient * 2 + 1 ≤ 2 * p = quotient-le divisor value (2 * p) _ _ exact hv in
        rw
          (
            sub64_exact divisor r.remainder (omega arith) hd,
            t,
            mul64_exact r.quotient 2 (omega arith),
            add64_exact (r.quotient * 2) 1 (omega arith),
            sub64_exact r.remainder (divisor - r.remainder) (omega arith) (omega arith),
          )
          (record { exact = exact; small = omega arith })
    | inr f ↦
        let under : 2 * r.remainder < divisor = omega (arith, leb→lt _ _ f) in
        let fits : r.quotient ≤ p = quotient-le divisor value p _ _ v.exact hv in
        rw
          (
            sub64_exact divisor r.remainder (omega arith) hd,
            f,
            mul64_exact r.quotient 2 (omega arith),
            mul64_exact r.remainder 2 (omega arith),
          )
          (omega arith)
  ]

  contribute-Divides :
      (p : ℕ) (r : ProductDivision)
      → p + 1 < u64
      → Divides divisor value p r
      → Divides divisor value (p + 1) (contribute divisor value r)
  unfolding contribute
  contribute-Divides p r h v = elim (Bool-cases (leb (divisor - value) r.remainder)) [
    | inl t ↦
        let over : divisor ≤ value + r.remainder = omega (arith, leb→le _ _ t) in
        let fits : r.quotient ≤ p = quotient-le divisor value p _ _ v.exact hv in
        rw
          (
            sub64_exact divisor value (omega arith) hd,
            t,
            add64_exact r.quotient 1 (omega arith),
            sub64_exact r.remainder (divisor - value) (omega arith) (omega arith),
          )
          (omega arith)
    | inr f ↦
        let under : r.remainder + value < divisor = omega (arith, leb→lt _ _ f) in
        rw
          (
            sub64_exact divisor value (omega arith) hd,
            f,
            add64_exact r.remainder value (omega arith),
          )
          (omega arith)
  ]

  long_division_round-Divides :
      (m k : ℕ) (r : ProductDivision)
      → IsU64 m
      → Divides divisor value (m / 2 ^ suc k) r
      → Divides divisor value (m / 2 ^ k) (long_division_round divisor value m k r)
  unfolding long_division_round
  long_division_round-Divides m k r hm v = elim (next_prefix m k) [
    | inl (f, e) ↦
        rw (f, e)
          (contribute-Divides _ _ (bound k (omega arith))
            (double-Divides _ r (bound k (omega arith)) v))
    | inr (t, e) ↦ rw (t, e) (double-Divides _ r (bound k (omega arith)) v)
  ]
    where
      bound : (k : ℕ) {p : ℕ} → p ≤ m / 2 ^ k → p < u64
      bound k h = omega (arith, div-le_self m (2 ^ k))

  pub long_division-Divides :
      (m k : ℕ) (r : ProductDivision)
      → IsU64 m
      → Divides divisor value (m / 2 ^ k) r
      → Divides divisor value m (long_division divisor value m k r)
  unfolding long_division
  long_division-Divides m zero r hm v = rw div-one at v
  long_division-Divides m (suc k) r hm v =
      long_division-Divides m k _ hm (long_division_round-Divides m k r hm v)

  -- The long division computes the exact quotient and remainder of the product, with no wrap.
  pub multiply_divide_portable_exact :
      (m : ℕ)
      → IsU64 m
      → ((multiply_divide_portable value m divisor).quotient ≡ value * m / divisor)
        × ((multiply_divide_portable value m divisor).remainder ≡ value * m % divisor)
  unfolding multiply_divide_portable
  multiply_divide_portable_exact m hm = (
    sym (div_unique _ divisor _ _ done.exact done.small),
    sym (mod_unique _ divisor _ _ done.exact done.small),
  )
    where
      done :
          Divides divisor value m
            (long_division divisor value m 64 (record { quotient = 0; remainder = 0 }))
      done = long_division-Divides m 64 (record { quotient = 0; remainder = 0 }) hm (grind arith)

  -- The 128-bit product gives the same.
  pub multiply_divide_exact :
      (m : ℕ)
      → IsU64 m
      → ((multiply_divide value m divisor).quotient ≡ value * m / divisor)
        × ((multiply_divide value m divisor).remainder ≡ value * m % divisor)
  unfolding multiply_divide
  multiply_divide_exact m hm =
      rw
        (
          mod-eq_of_lt {n = value * m} {m = 2 ^ 128} product_fits,
          mod-eq_of_lt {n = value * m / divisor} {m = u64} quotient_fits,
          mod-eq_of_lt {n = value * m % divisor} {m = u64} remainder_fits,
        )
        (refl, refl)
    where
      product_fits : value * m < 2 ^ 128
      product_fits = omega (
        arith,
        mul-le-mul {n₁ = value} {m₁ = m} {n₂ = 2 ^ 64 - 1} {m₂ = 2 ^ 64 - 1} (omega arith)
            (omega arith),
      )

      quotient_fits : value * m / divisor < u64
      quotient_fits = omega (arith, mul-div_le value m divisor hv)

      remainder_fits : value * m % divisor < u64
      remainder_fits = omega (arith, mod-lt (value * m) {m = divisor} (omega arith))

  -- The two builds agree, for every multiplier of 64 bits.
  pub multiply_divide_portable-eq :
      (m : ℕ) → IsU64 m → multiply_divide_portable value m divisor ≡ multiply_divide value m divisor
  multiply_divide_portable-eq m hm =
      ground (arith, multiply_divide_portable_exact m hm, multiply_divide_exact m hm)
