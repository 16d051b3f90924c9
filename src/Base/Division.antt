-- ===== src/Base/Division.antt =====
-- Facts on quotients and remainders, and on one bit of a number.
use Prim.Native.Nat.{ℕ, suc, ◌+◌, ◌*◌, ◌/◌, ◌%◌, ◌^◌, ◌≤◌, ◌<◌}
use native.Mathlib.Nat.{pow-suc, div-div-eq-div-mul, div-add-mod', mod-lt}
use mathlib.Core.Path.{◌≡◌, sym, ap}
use native.Mathlib.Omega.{arith}

-- A quotient and a remainder are determined by their equation.
module _ (n d q r : ℕ) (e : q * d + r ≡ n) (h : r < d) where
  pub div_unique : n / d ≡ q
  div_unique = grind arith

  pub mod_unique : n % d ≡ r
  mod_unique = grind arith

-- The quotient of a product by a number above one factor stays within the other factor.
pub mul-div_le : (v m d : ℕ) → v < d → v * m / d ≤ m
mul-div_le v m d h = grind arith

pub mul-div_lt : (v m d : ℕ) → v < d → 0 < m → v * m / d < m
mul-div_lt v m d h k = grind arith

pub half_pow : (m k : ℕ) → m / 2 ^ suc k ≡ m / 2 ^ k / 2
half_pow m k = rw pow-suc (sym (div-div-eq-div-mul m (2 ^ k) 2))

-- The highest bits of a number, one more at a time.
pub prefix_step : (m k : ℕ) → m / 2 ^ k ≡ 2 * (m / 2 ^ suc k) + m / 2 ^ k % 2
prefix_step m k = omega (arith, half_pow m k)

-- The quotient of a product, from the quotient and the remainder of one factor.
module _ (t b d : ℕ) (h : 0 < d) where
  parts : (t / d * b + t % d * b / d) * d + t % d * b % d ≡ t * b
  parts = omega (arith, ap (λ (k : ℕ). k * b) (div-add-mod' t d), div-add-mod' (t % d * b) d)

  pub split_quotient : t * b / d ≡ t / d * b + t % d * b / d
  split_quotient = div_unique (t * b) d _ _ parts (mod-lt (t % d * b) h)

  pub split_remainder : t * b % d ≡ t % d * b % d
  split_remainder = mod_unique (t * b) d _ _ parts (mod-lt (t % d * b) h)
