-- ===== src/Prelude/Word.antt =====
-- Machine integers as bit patterns: a number below 2 ^ 64 for `int64`, below 2 ^ 16 for `uint16`.
use Prim.Native.Nat.{ℕ, ◌+◌, ◌-◌, ◌%◌, ◌^◌, ◌<◌}
use mathlib.Core.Path.{◌≡◌}
use mathlib.Core.Bool.{Bool}
use native.Mathlib.Omega.{arith}
use tsdnsreflector.Prelude.Tests.{ltb}

unfoldable pub add64 : ℕ → ℕ → ℕ
add64 a b = (a + b) % 2 ^ 64

unfoldable pub sub64 : ℕ → ℕ → ℕ
sub64 a b = (a + 2 ^ 64 - b % 2 ^ 64) % 2 ^ 64

-- The signed comparison `a > b`: the patterns are moved by half the range first.
unfoldable pub gt64 : ℕ → ℕ → Bool
gt64 a b = ltb ((b + 2 ^ 63) % 2 ^ 64) ((a + 2 ^ 63) % 2 ^ 64)

-- On values below 2 ^ 63 the signed comparison is that of the numbers.
pub gt64-ltb : (a b : ℕ) → a < 2 ^ 63 → b < 2 ^ 63 → gt64 a b ≡ ltb b a
unfolding gt64
gt64-ltb a b p q = ground arith

-- A step back from a sum, and a step on, modulo 2 ^ 64.
pub sub64_sum : (u s r : ℕ) → u ≡ (s + r) % 2 ^ 64 → sub64 u s ≡ r % 2 ^ 64
unfolding sub64
sub64_sum u s r h = omega arith

pub add64_sum : (u s r : ℕ) → u ≡ r % 2 ^ 64 → add64 u s ≡ (s + r) % 2 ^ 64
unfolding add64
add64_sum u s r h = omega arith
