-- ===== src/Base/Bits.antt =====
-- The test `(m & (1 << k)) != 0` as arithmetic.
use Prim.Native.Nat.{
  ℕ, zero, suc, ◌+◌, ◌*◌, ◌/◌, ◌%◌, ◌^◌, ◌≤◌, min, bit_and, digits, bit_and-bitwise,
}
use mathlib.Core.Path.{◌≡◌, refl, ◌∙◌}
use native.Mathlib.Nat.{pow-succ', div-div-eq-div-mul, zero-div}
use native.Mathlib.Omega.{arith}

common : ℕ → ℕ → ℕ → ℕ
common n a b = digits (λ _. zero) min n a b

common-suc :
    (n a b : ℕ)
    → common (suc n) (suc a) b ≡ common n (suc a / 2) (b / 2) * 2 + min (suc a % 2) (b % 2)
unfolding common
common-suc n a b = refl

common-zero : (n a : ℕ) → common n a 0 ≡ 0
unfolding common
common-zero zero a = refl
common-zero (suc n) zero = refl
common-zero (suc n) (suc a) = omega (arith, common-zero n (suc a / 2))

common-nil : (n b : ℕ) → common n 0 b ≡ 0
unfolding common
common-nil zero b = refl
common-nil (suc n) b = refl

half_double : (a : ℕ) → 2 * a / 2 ≡ a
half_double a = omega arith

common-pow : (n a k : ℕ) → a ≤ n → common n a (2 ^ k) ≡ (a / 2 ^ k % 2) * 2 ^ k
common-pow zero zero k h = rw (common-nil, zero-div) (omega arith)
common-pow zero (suc a) k h = absurd (omega arith)
common-pow (suc n) zero k h = rw (common-nil, zero-div) (omega arith)
common-pow (suc n) (suc a) zero h = omega (arith, common-suc n a 1, common-zero n (suc a / 2))
common-pow (suc n) (suc a) (suc k) h =
    rw
      (
        pow-succ',
        common-suc n a (2 * 2 ^ k),
        half_double (2 ^ k),
        common-pow n (suc a / 2) k (omega arith),
        div-div-eq-div-mul (suc a) 2 (2 ^ k),
      )
      (omega arith)

-- A mask of one bit keeps that digit of the number at its place.
pub bit_and-pow : (a k : ℕ) → bit_and a (2 ^ k) ≡ (a / 2 ^ k % 2) * 2 ^ k
unfolding common
bit_and-pow a k = bit_and-bitwise a (2 ^ k) ∙ common-pow a a k (omega arith)
