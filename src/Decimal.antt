-- ===== src/Decimal.antt =====
-- Python's finite `decimal.Decimal` values: an integer coefficient and a power of ten. The sign of
-- a zero is not kept. NaN and the infinities are refused by every validator of the models.
pub mod Arithmetic
pub mod Compare
use stock_master.Prelude.{ℕ, ◌+◌, ◌-◌, ◌^◌, Bool}
use stock_master.Prelude.Int.{ℤ, pos_part, neg_part, scale, ltb_ℤ, leb_ℤ, eqb_ℤ, pos}

-- coefficient × 10 ^ exponent
pub record Decimal : Type 0 where
  pub coefficient : ℤ
  pub exponent : ℤ

-- How far the exponent of `a` lies above that of `b`; 0 when it does not.
unfoldable pub above : Decimal → Decimal → ℕ
above a b =
    (pos_part a.exponent + neg_part b.exponent) - (pos_part b.exponent + neg_part a.exponent)

-- The coefficient of `a` at the lower exponent of the two.
unfoldable pub aligned : Decimal → Decimal → ℤ
unfolding above scale
aligned a b = scale a.coefficient (10 ^ above a b)

-- `a < b`
unfoldable pub ltb_dec : Decimal → Decimal → Bool
unfolding aligned
ltb_dec a b = ltb_ℤ (aligned a b) (aligned b a)

-- `a <= b`
unfoldable pub leb_dec : Decimal → Decimal → Bool
unfolding aligned
leb_dec a b = leb_ℤ (aligned a b) (aligned b a)

-- `a == b`
unfoldable pub eqb_dec : Decimal → Decimal → Bool
unfolding aligned
eqb_dec a b = eqb_ℤ (aligned a b) (aligned b a)

-- `Decimal(n)`
abbrev pub of_ℕ : ℕ → Decimal
of_ℕ n = record { coefficient = pos n; exponent = pos 0 }
