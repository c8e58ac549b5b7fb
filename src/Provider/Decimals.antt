-- ===== src/Provider/Decimals.antt =====
-- What the power shaping relies on of cosmossdk.io/math.LegacyDec, decimals of 18 digits, which is
-- another module's code: a parameter with its documented behaviour.
use native.Mathlib.Nat.{mul-le-mul, mul-le-mul_right}
use interchain_security.Common.{
  ℕ, ◌*◌, ◌/◌, ◌≤◌, ◌<◌, ◌≡◌, Bool, true, false, Option, none, some, arith, leb, ◌==◌,
  if◌then◌else◌,
}

pub record LegacyDec : Type 0 where
  -- `NewDec(s).Mul(NewDec(p)).QuoInt64(100).TruncateInt64()`
  pub percent_truncated : ℕ → ℕ → ℕ
  -- `sum.Quo(total).GTE(NewDec(n).QuoInt64(100))`; `none` is the panic of a division by zero.
  pub share_reaches : ℕ → ℕ → ℕ → Option Bool

-- Products and quotients by 100 of whole numbers are exact in 18 digits, and truncation rounds down.
abbrev pub TruncatesPercent : LegacyDec → Type 0
TruncatesPercent d = (s p : ℕ) → d.percent_truncated s p ≡ s * p / 100

-- A quotient by a positive total is rounded to 18 digits: it is some decimal, it is monotone in the
-- dividend, and a whole is the decimal one, and nothing is zero.
pub record RoundsQuotient (d : LegacyDec) : Type 0 where
  pub defined : (s t n : ℕ) → 0 < t → (b : Bool) × (d.share_reaches s t n ≡ some b)
  pub monotone :
      (s s' t n : ℕ)
      → s ≤ s'
      → d.share_reaches s t n ≡ some true
      → d.share_reaches s' t n ≡ some true
  pub whole : (t n : ℕ) → 0 < t → n ≤ 100 → d.share_reaches t t n ≡ some true
  pub nothing : (t n : ℕ) → 0 < t → 0 < n → d.share_reaches 0 t n ≡ some false

-- Decimals without rounding, in which a share is compared by its products.
abbrev pub exact_dec : LegacyDec
exact_dec = record {
  percent_truncated = λ s p. s * p / 100;
  share_reaches = λ s t n. if t == 0 then none else some (leb (n * t) (100 * s));
}

exact_dec-defined : (s t n : ℕ) → 0 < t → (b : Bool) × (exact_dec.share_reaches s t n ≡ some b)
exact_dec-defined s t n h = (leb (n * t) (100 * s), ground arith)

exact_dec-monotone :
    (s s' t n : ℕ)
    → s ≤ s'
    → exact_dec.share_reaches s t n ≡ some true
    → exact_dec.share_reaches s' t n ≡ some true
exact_dec-monotone s s' t n h e = ground arith

exact_dec-whole : (t n : ℕ) → 0 < t → n ≤ 100 → exact_dec.share_reaches t t n ≡ some true
exact_dec-whole t n h k = ground (arith, mul-le-mul_right t k)

exact_dec-nothing : (t n : ℕ) → 0 < t → 0 < n → exact_dec.share_reaches 0 t n ≡ some false
exact_dec-nothing t n h k = ground (arith, mul-le-mul h k)

pub exact_dec-RoundsQuotient : RoundsQuotient exact_dec
exact_dec-RoundsQuotient = record {
  defined = exact_dec-defined;
  monotone = exact_dec-monotone;
  whole = exact_dec-whole;
  nothing = exact_dec-nothing;
}
