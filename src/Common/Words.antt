-- ===== src/Common/Words.antt =====
-- Go's fixed-width integers as bit patterns, with the wrap-around written out.
-- An int64 is its two's complement pattern below 2 ^ 64; a pattern below 2 ^ 63 is non-negative.
use Prim.Native.Nat.{ℕ, ◌+◌, ◌-◌, ◌/◌, ◌%◌, ◌≤◌, ◌<◌}
use mathlib.Core.Path.{◌≡◌}
use mathlib.Core.Bool.{Bool}
use native.Mathlib.Omega.{arith}
use interchain_security.Common.Tests.{ltb, leb, if◌then◌else◌}

abbrev pub two63 : ℕ
two63 = 0x8000_0000_0000_0000

abbrev pub two64 : ℕ
two64 = 0x1_0000_0000_0000_0000

-- a + b and a - b on int64 and uint64.
unfoldable pub add64 : ℕ → ℕ → ℕ
add64 a b = (a + b) % two64

unfoldable pub sub64 : ℕ → ℕ → ℕ
sub64 a b = (a + two64 - b) % two64

-- The signed order: the patterns with the sign bit flipped.
unfoldable pub ge_i64 : ℕ → ℕ → Bool
ge_i64 a b = leb ((b + two63) % two64) ((a + two63) % two64)

-- Negation of a pattern, and its absolute value.
unfoldable pub neg64 : ℕ → ℕ
neg64 a = (two64 - a) % two64

unfoldable pub abs64 : ℕ → ℕ
unfolding neg64
abs64 a = if ltb a two63 then a else neg64 a

-- Go's a / b on int64 truncates towards zero; the caller excludes b = 0.
unfoldable pub div_i64 : ℕ → ℕ → ℕ
unfolding abs64 neg64
div_i64 a b =
    if ltb a two63
    then (if ltb b two63 then a / b else neg64 (a / abs64 b))
    else (if ltb b two63 then neg64 (abs64 a / b) else (abs64 a / abs64 b) % two64)

-- Within the non-negative range the operations are those of the numbers.
pub add64_exact : (a b : ℕ) → a + b < two64 → add64 a b ≡ a + b
unfolding add64
add64_exact a b h = omega arith

pub sub64_exact : (a b : ℕ) → b ≤ a → a < two64 → sub64 a b ≡ a - b
unfolding sub64
sub64_exact a b h k = omega arith

pub ge_i64_exact : (a b : ℕ) → a < two63 → b < two63 → ge_i64 a b ≡ leb b a
unfolding ge_i64
ge_i64_exact a b h k = ground arith

pub div_i64_exact : (a b : ℕ) → a < two63 → b < two63 → div_i64 a b ≡ a / b
unfolding div_i64
div_i64_exact a b h k = ground arith
