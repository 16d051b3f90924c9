-- ===== src/RxQueue/Timing.antt =====
-- The time of a block's next sample: the exact time, with the fractions of its clock and of its rate.
use native.Mathlib.Nat.{
  mul-lt-mul_of_pos_right, mod-lt, div-add-mod', lt_of_mul-lt-mul_right, le_of_mul-le-mul_right,
  mul-le-mul_right,
}
use soapy_sidekiq.Base.{
  ℕ, ◌+◌, ◌-◌, ◌*◌, ◌/◌, ◌%◌, ◌≤◌, ◌<◌, ◌≡◌, inl, inr, true, false, Bool, ◌&&◌, refl, ap, arith,
  ltb, leb, ==_iff, leb→le, leb→lt, ltb→lt, ltb→le, ◌==◌, Bool-cases, if◌then◌else◌, ok, throw,
  overflow_error, List, length,
}
use soapy_sidekiq.Base.Int.{pos, ◌+ℤ◌, ltb_ℤ, eqb_ℤ}
use soapy_sidekiq.Base.Words.{u64, IsU64, int64_max, add64, sub64, add64_exact, sub64_exact}
use soapy_sidekiq.Base.Division.{div_unique}
use soapy_sidekiq.Timestamp.Product.{multiply_divide}
use soapy_sidekiq.Timestamp.Product.Exact.{multiply_divide_exact}
use soapy_sidekiq.Timestamp.Rate.{TimestampRate, TimestampPhase}
use soapy_sidekiq.Timestamp.Rate.Exact.{IsProper, scaled, exact_phase, convert_exact}
use soapy_sidekiq.RxQueue.{
  Block, Queue, enqueue, push_with_phase, push_ticks, carries, offset_time, block_time,
}

-- The rounded-up quotient that the code compares with, against the exact fraction.
module _ (g d e r : ℕ) (he : 0 < e) where
  abbrev ceiling : ℕ
  ceiling = g * d / e + (if g * d % e == 0 then 0 else 1)

  ceiling_le : ceiling ≤ r → g * d ≤ r * e
  ceiling_le h = elim (Bool-cases (g * d % e == 0)) [
    | inl t ↦ ground (arith, div-add-mod' (g * d) e, mul-le-mul_right {m = g * d / e} {n = r} e)
    | inr f ↦ ground (
      arith,
      mod-lt (g * d) he,
      div-add-mod' (g * d) e,
      mul-le-mul_right {m = g * d / e + 1} {n = r} e,
    )
  ]

  le_ceiling : g * d ≤ r * e → ceiling ≤ r
  le_ceiling h = ground (
    arith,
    div-add-mod' (g * d) e,
    le_of_mul-le-mul_right {m = g * d / e} {n = r} {k = e},
    lt_of_mul-lt-mul_right e {m = g * d / e} {n = r},
  )

leb_iff : (a b c d : ℕ) → (a ≤ b → c ≤ d) → (c ≤ d → a ≤ b) → leb a b ≡ leb c d
leb_iff a b c d f g = ground arith

-- The two fractions that add up to a carry are proper ones, of words.
pub record Fractions (r d s e : ℕ) : Type 0 where
  pub time_proper : r < d
  pub offset_proper : s < e
  pub time_word : IsU64 d
  pub offset_word : IsU64 e

-- The code's comparison, with no wrap: r / d + s / e is at least one.
threshold_exact :
    (r d s e : ℕ)
    → Fractions r d s e
    → 0 < s
    → let t = multiply_divide (sub64 e s) d e in
      leb (add64 t.quotient (if t.remainder == 0 then 0 else 1)) r ≡ leb (d * e) (r * e + s * d)
threshold_exact r d s e v hs =
    rw (sub64_exact e s (omega arith) v.offset_word, exact.0, exact.1, add64_exact _ _ fits)
      (leb_iff _ _ _ _ (λ h. omega (arith, ceiling_le (e - s) d e r (omega arith) h, whole))
        (λ h. le_ceiling (e - s) d e r (omega arith) (omega (arith, whole))))
  where
    exact :
        ((multiply_divide (e - s) d e).quotient ≡ (e - s) * d / e)
        × ((multiply_divide (e - s) d e).remainder ≡ (e - s) * d % e)
    exact = multiply_divide_exact e (e - s) v.offset_word (omega arith) d v.time_word

    whole : (e - s) * d + s * d ≡ d * e
    whole = let back : e - s + s ≡ e = omega arith in omega (arith, ap (λ (k : ℕ). k * d) back)

    fits : ceiling (e - s) d e r (omega arith) < u64
    fits = omega (arith, le_ceiling (e - s) d e d (omega arith) (omega (arith, whole)))

-- So the carry is exact, also where a fraction is zero.
carries_exact :
    (block : Block) (phase : TimestampPhase)
    → Fractions block.time_remainder block.time_denominator phase.remainder phase.denominator
    → carries block phase
      ≡ leb
          (block.time_denominator * phase.denominator)
          (block.time_remainder * phase.denominator + phase.remainder * block.time_denominator)
unfolding carries
carries_exact block phase v = elim (Bool-cases (phase.remainder == 0)) [
  | inl t ↦ ground (arith, no_offset ((==_iff _ 0).0 t))
  | inr f ↦ rw (threshold_exact r d s e v (ground arith)) (elim (Bool-cases (r == 0)) [
    | inl t ↦ ground (arith, no_time ((==_iff _ 0).0 t))
    | inr g ↦ rw (f, g) refl
  ])
]
  where
    r : ℕ
    r = block.time_remainder

    d : ℕ
    d = block.time_denominator

    s : ℕ
    s = phase.remainder

    e : ℕ
    e = phase.denominator

    no_offset : s ≡ 0 → leb (d * e) (r * e + s * d) ≡ false
    no_offset h = grind arith

    no_time : r ≡ 0 → leb (d * e) (r * e + s * d) ≡ false
    no_time h = grind arith

-- The sum of two fractions in whole numbers and a carry.
module _ (a d b e : ℕ) (hd : 0 < d) (he : 0 < e) where
  abbrev carry : Bool
  carry = leb (d * e) (a % d * e + b % e * d)

  parts : a * e + b * d ≡ (a / d + b / e) * (d * e) + (a % d * e + b % e * d)
  parts =
      omega
        (arith, ap (λ (k : ℕ). k * e) (div-add-mod' a d), ap (λ (k : ℕ). k * d) (div-add-mod' b e))

  fractions_lt : a % d * e + b % e * d < 2 * (d * e)
  fractions_lt = omega (
    arith,
    mul-lt-mul_of_pos_right {m = a % d} {n = d} {k = e} (mod-lt a hd) he,
    mul-lt-mul_of_pos_right {m = b % e} {n = e} {k = d} (mod-lt b he) hd,
  )

  sum_of_fractions : (a * e + b * d) / (d * e) ≡ a / d + b / e + (if carry then 1 else 0)
  sum_of_fractions = elim (Bool-cases carry) [
    | inl t ↦ rw t (
        div_unique _ (d * e) _ (a % d * e + b % e * d - d * e) (omega (arith, parts, leb→le _ _ t))
          (omega (arith, fractions_lt, leb→le _ _ t)))
    | inr f ↦
        rw f (div_unique _ (d * e) _ (a % d * e + b % e * d) (omega (arith, parts)) (leb→lt _ _ f))
  ]

-- The checks of `blockTime` against the carried sum.
offset_checks :
    (t n : ℕ) (c : Bool)
    → t ≤ int64_max
    → n ≤ int64_max
    → (if ltb 0 n && ltb_ℤ (pos (int64_max - n)) (pos t)
        then throw overflow_error
        else if c
        then if eqb_ℤ (pos t +ℤ pos n) (pos int64_max)
          then throw overflow_error
          else ok (pos t +ℤ pos n +ℤ pos 1)
        else ok (pos t +ℤ pos n))
      ≡ (let u = t + n + (if c then 1 else 0) in
          if ltb int64_max u then throw overflow_error else ok (pos u))
unfolding ◌+ℤ◌
offset_checks t n true ht hn = ground arith
offset_checks t n false ht hn = ground arith

-- A block whose first sample has the time of `timestamp` ticks of `clock`, read up to `offset`.
abbrev pub stamped : List ℕ → TimestampRate → ℕ → TimestampRate → ℕ → Block
stamped samples clock timestamp rate offset = record {
  samples = samples;
  offset = offset;
  time_ns = pos (scaled clock timestamp / clock.numerator);
  sample_rate = rate;
  time_remainder = scaled clock timestamp % clock.numerator;
  time_denominator = clock.numerator;
}

-- The exact time of the sample at `offset`, over the product of the two numerators.
abbrev pub exact_time : TimestampRate → ℕ → TimestampRate → ℕ → ℕ
exact_time clock timestamp rate offset =
    (scaled clock timestamp * rate.numerator + scaled rate offset * clock.numerator)
    / (clock.numerator * rate.numerator)

-- The reported time of a partially read block is the exact time of its next sample, truncated once to
-- nanoseconds, or an overflow exactly when that exceeds the signed range. (The time of the block's
-- first sample is in range, since the block was accepted.)
pub block_time_exact :
    (samples : List ℕ) (clock rate : TimestampRate) (timestamp offset : ℕ)
    → IsProper clock
    → IsProper rate
    → IsU64 offset
    → scaled clock timestamp / clock.numerator ≤ int64_max
    → block_time (stamped samples clock timestamp rate offset) ≡ (
        let t = exact_time clock timestamp rate offset in
        if ltb int64_max t then throw overflow_error else ok (pos t))
unfolding block_time offset_time
block_time_exact samples clock rate timestamp offset v w ho ht =
    rw
      (
        convert_exact rate offset w ho,
        sum_of_fractions (scaled clock timestamp) d (scaled rate offset) e v.numerator_positive
            w.numerator_positive,
      )
      (elim (Bool-cases (ltb int64_max (scaled rate offset / e))) [
        | inl over ↦ rw over (ground (arith, ltb→lt _ _ over))
        | inr fits ↦
            rw
              (
                fits,
                carries_exact (stamped samples clock timestamp rate offset)
                    (exact_phase rate offset) proper,
              )
              (offset_checks _ _ _ ht (ltb→le _ _ fits))
      ])
  where
    d : ℕ
    d = clock.numerator

    e : ℕ
    e = rate.numerator

    proper : Fractions (scaled clock timestamp % d) d (scaled rate offset % e) e
    proper = record {
      time_proper = mod-lt (scaled clock timestamp) v.numerator_positive;
      offset_proper = mod-lt (scaled rate offset) w.numerator_positive;
      time_word = v.numerator_word;
      offset_word = w.numerator_word;
    }

-- `pushTicks` of complete pairs at a proper rate stores the block with the exact time of its first
-- sample, or refuses it exactly when that time is out of range.
pub push_ticks_stamps :
    (q : Queue) (samples : List ℕ) (clock rate : TimestampRate) (timestamp : ℕ)
    → IsProper clock
    → IsProper rate
    → IsU64 timestamp
    → 0 < length samples
    → length samples % 2 ≡ 0
    → push_ticks q samples timestamp clock rate ≡ (
        if ltb int64_max (scaled clock timestamp / clock.numerator)
        then throw overflow_error
        else ok (enqueue q (stamped samples clock timestamp rate 0)))
unfolding push_ticks push_with_phase
push_ticks_stamps q samples clock rate timestamp v w ht nonempty pairs =
    rw (convert_exact clock timestamp v ht)
      (elim (Bool-cases (ltb int64_max (scaled clock timestamp / clock.numerator))) [
        | inl over ↦ rw over refl
        | inr fits ↦ rw fits (ground arith)
      ])
