-- ===== src/Base/Words.antt =====
-- The arithmetic of `u32` and `u128` as the release profile compiles it: it wraps around.
use Prim.Native.Nat.{ℕ, ◌+◌, ◌-◌, ◌%◌, ◌^◌, ◌≤◌, ◌<◌}
use mathlib.Core.Path.{◌≡◌}
use native.Mathlib.Omega.{arith}

-- `u32 + u32`
unfoldable pub add_u32 : ℕ → ℕ → ℕ
add_u32 a b = (a + b) % 2 ^ 32

-- `u32 - u32`; subtraction on ℕ stops at 0, so the modulus goes first.
unfoldable pub sub_u32 : ℕ → ℕ → ℕ
sub_u32 a b = (a + 2 ^ 32 - b) % 2 ^ 32

-- `Balance + Balance`, at the runtime's `u128`
unfoldable pub add_u128 : ℕ → ℕ → ℕ
add_u128 a b = (a + b) % 2 ^ 128

-- `u64 + u64`
unfoldable pub add_u64 : ℕ → ℕ → ℕ
add_u64 a b = (a + b) % 2 ^ 64

-- `Balance - Balance`
unfoldable pub sub_u128 : ℕ → ℕ → ℕ
sub_u128 a b = (a + 2 ^ 128 - b) % 2 ^ 128

pub add_u128_exact : (a b : ℕ) → a + b < 2 ^ 128 → add_u128 a b ≡ a + b
unfolding add_u128
add_u128_exact a b h = omega arith

pub sub_u128_exact : (a b : ℕ) → b ≤ a → a < 2 ^ 128 → sub_u128 a b ≡ a - b
unfolding sub_u128
sub_u128_exact a b h k = omega arith

pub add_u32_exact : (a b : ℕ) → a + b < 2 ^ 32 → add_u32 a b ≡ a + b
unfolding add_u32
add_u32_exact a b h = omega arith

pub sub_u32_exact : (a b : ℕ) → b ≤ a → a < 2 ^ 32 → sub_u32 a b ≡ a - b
unfolding sub_u32
sub_u32_exact a b h k = omega arith
