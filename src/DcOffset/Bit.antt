-- ===== src/DcOffset/Bit.antt =====
-- One bit of a mask: `mask & bit`, `mask | bit` and `mask & ~bit` of a mask of 32 bits.
use soapy_sidekiq.Base.{
  ℕ, zero, suc, inl, inr, ◌+◌, ◌-◌, ◌*◌, ◌/◌, ◌%◌, ◌^◌, ◌<◌, ◌==◌, ◌≡◌, refl, arith, Bool, true,
  false, Bool-cases, if◌then◌else◌,
}
use soapy_sidekiq.Base.Division.{div_unique}
use native.Mathlib.Nat.{div-add-mod', mod-lt, one-le-pow}

unfoldable pub has_bit : ℕ → ℕ → Bool
has_bit place mask = mask / 2 ^ place % 2 == 1

unfoldable pub add_bit : ℕ → ℕ → ℕ
add_bit place mask = if has_bit place mask then mask else mask + 2 ^ place

unfoldable pub remove_bit : ℕ → ℕ → ℕ
remove_bit place mask = if has_bit place mask then mask - 2 ^ place else mask

module _ (b m : ℕ) (h : 0 < b) where
  above : (m + b) / b ≡ m / b + 1
  above = div_unique (m + b) b (m / b + 1) (m % b) (grind (arith, div-add-mod' m b)) (mod-lt m h)

  one_less : (q r n : ℕ) → q * b + r ≡ n → q % 2 ≡ 1 → (q - 1) * b + r ≡ n - b
  one_less zero r n e o = absurd (omega (arith, o))
  one_less (suc q) r n e o = grind (arith, e)

  below : (m / b % 2 ≡ 1) → (m - b) / b ≡ m / b - 1
  below o =
      div_unique (m - b) b (m / b - 1) (m % b) (one_less (m / b) (m % b) m (div-add-mod' m b) o)
        (mod-lt m h)

pub has_bit-add_bit : (place mask : ℕ) → has_bit place (add_bit place mask) ≡ true
unfolding has_bit add_bit
has_bit-add_bit place mask = elim (Bool-cases (mask / 2 ^ place % 2 == 1)) [
  | inl set ↦ simp set refl
  | inr clear ↦
      simp clear (rw (above (2 ^ place) mask (one-le-pow place 2 (omega arith))) (ground arith))
]

pub has_bit-remove_bit : (place mask : ℕ) → has_bit place (remove_bit place mask) ≡ false
unfolding has_bit remove_bit
has_bit-remove_bit place mask = elim (Bool-cases (mask / 2 ^ place % 2 == 1)) [
  | inl set ↦
      simp set (
        rw (below (2 ^ place) mask (one-le-pow place 2 (omega arith)) (ground arith))
          (ground arith))
  | inr clear ↦ simp clear refl
]
