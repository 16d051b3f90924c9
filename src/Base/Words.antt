-- ===== src/Base/Words.antt =====
-- Unsigned machine words as native numbers, with their wrap written out.
use Prim.Native.Nat.{ℕ, ◌+◌, ◌-◌, ◌*◌, ◌%◌, ◌^◌, ◌≤◌, ◌<◌}
use mathlib.Core.Path.{◌≡◌}
use native.Mathlib.Nat.{mod-eq_of_lt}
use native.Mathlib.Omega.{arith}

-- std::uint64_t, and std::size_t on the 64-bit targets of the driver.
abbrev pub u64 : ℕ
u64 = 2 ^ 64

abbrev pub uint64_max : ℕ
uint64_max = 2 ^ 64 - 1

abbrev pub int64_max : ℕ
int64_max = 2 ^ 63 - 1

abbrev pub int_max : ℕ
int_max = 2 ^ 31 - 1

abbrev pub IsU64 : ℕ → Type 0
IsU64 n = n < u64

abbrev pub add64 : ℕ → ℕ → ℕ
add64 a b = (a + b) % u64

abbrev pub sub64 : ℕ → ℕ → ℕ
sub64 a b = (a + u64 - b) % u64

abbrev pub mul64 : ℕ → ℕ → ℕ
mul64 a b = (a * b) % u64

-- Where the exact result fits, the word has it.
pub add64_exact : (a b : ℕ) → a + b < u64 → add64 a b ≡ a + b
add64_exact a b h = mod-eq_of_lt h

pub sub64_exact : (a b : ℕ) → b ≤ a → a < u64 → sub64 a b ≡ a - b
sub64_exact a b h k = omega arith

pub mul64_exact : (a b : ℕ) → a * b < u64 → mul64 a b ≡ a * b
mul64_exact a b h = mod-eq_of_lt h
