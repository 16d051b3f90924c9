-- ===== src/Timestamp/Conversion/RoundTrip.antt =====
-- Ticks and nanoseconds there and back: at most one unit is lost.
use native.Mathlib.Nat.{div-add-mod', lt-div-mul-add, lt_of_mul-lt-mul_right}
use soapy_sidekiq.Base.{ℕ, ◌+◌, ◌*◌, ◌/◌, ◌≤◌, ◌<◌, ◌≡◌, sym, ◌∙◌, arith, ok}
use soapy_sidekiq.Base.Int.{pos}
use soapy_sidekiq.Base.Words.{IsU64, int64_max, uint64_max}
use soapy_sidekiq.Timestamp.Conversion.{
  nanoseconds_per_second, ticks_to_nanoseconds, nanoseconds_to_ticks,
}
use soapy_sidekiq.Timestamp.Conversion.Exact.{
  within, ticks_to_nanoseconds_exact, nanoseconds_to_ticks_exact,
}

pub within-ok : (limit n m : ℕ) → within limit n ≡ ok m → (m ≡ n) × (n ≤ limit)
within-ok limit n m e = ground arith

pub within-small : (limit n : ℕ) → n ≤ limit → within limit n ≡ ok n
within-small limit n h = ground arith

-- Truncation down and back up by inverse ratios.
module _ (t a b : ℕ) (ha : 0 < a) (hb : 0 < b) where
  pub back_le : t * b / a * a / b ≤ t
  back_le = grind (arith, div-add-mod' (t * b) a, div-add-mod' (t * b / a * a) b)

  back_near : a ≤ b → t ≤ t * b / a * a / b + 1
  back_near h = omega (arith, lt_of_mul-lt-mul_right b {m = t} {n = t * b / a * a / b + 2} close)
    where
      close : t * b < (t * b / a * a / b + 2) * b
      close = omega (arith, lt-div-mul-add {a = t * b} ha, lt-div-mul-add {a = t * b / a * a} hb)

-- Up to 1 GHz, a tick count that converts to nanoseconds comes back as itself or as one tick less.
pub ticks_round_trip :
    (t f n : ℕ)
    → IsU64 t
    → 0 < f
    → f ≤ nanoseconds_per_second
    → ticks_to_nanoseconds t f ≡ ok n
    → (k : ℕ) × (nanoseconds_to_ticks (pos n) f ≡ ok k) × (k ≤ t) × (t ≤ k + 1)
ticks_round_trip t f n ht hf small e = (
  n * f / nanoseconds_per_second,
  nanoseconds_to_ticks_exact n f (omega arith) hf
      ∙ within-small uint64_max _ (omega (arith, below)),
  below,
  rw exact (back_near t f nanoseconds_per_second hf (omega arith) small),
)
  where
    exact : n ≡ t * nanoseconds_per_second / f
    exact = (within-ok _ _ n (sym (ticks_to_nanoseconds_exact t f ht hf) ∙ e)).0

    below : n * f / nanoseconds_per_second ≤ t
    below = rw exact (back_le t f nanoseconds_per_second hf (omega arith))

-- From 1 GHz up, a time that converts to ticks comes back as itself or as one nanosecond less.
pub nanoseconds_round_trip :
    (n f t : ℕ)
    → n ≤ int64_max
    → IsU64 f
    → nanoseconds_per_second ≤ f
    → nanoseconds_to_ticks (pos n) f ≡ ok t
    → (k : ℕ) × (ticks_to_nanoseconds t f ≡ ok k) × (k ≤ n) × (n ≤ k + 1)
nanoseconds_round_trip n f t hn hf large e = (
  t * nanoseconds_per_second / f,
  ticks_to_nanoseconds_exact t f (omega (arith, exact)) (omega arith)
      ∙ within-small int64_max _ (omega (arith, below)),
  below,
  rw exact.0 (back_near n nanoseconds_per_second f (omega arith) (omega arith) large),
)
  where
    exact : (t ≡ n * f / nanoseconds_per_second) × (n * f / nanoseconds_per_second ≤ uint64_max)
    exact = within-ok _ _ t (sym (nanoseconds_to_ticks_exact n f hf (omega arith)) ∙ e)

    below : t * nanoseconds_per_second / f ≤ n
    below = rw exact.0 (back_le n nanoseconds_per_second f (omega arith) (omega arith))
