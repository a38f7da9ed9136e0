-- ===== src/Rules/Compare.antt =====
-- `compare_values` of app/domain/rule_engine.py: the four operators against each other.
use stock_master.Prelude.{◌≡◌, refl, not, ◌||◌, arith, ap₂}
use stock_master.Prelude.Int.{ℤ, pos, negsuc, scale, ltb_ℤ}
use stock_master.Decimal.{Decimal, eqb_dec, ltb_dec, aligned, above}
use stock_master.Decimal.Compare.{ltb_dec-eq-not, leb_dec-eq-or}
use stock_master.Thesis.{
  ComparisonOperator, greater_than, greater_than_or_equal, less_than, less_than_or_equal,
}
use stock_master.Rules.{compare_values}

-- The operator that holds exactly when the given one fails.
abbrev pub negation : ComparisonOperator → ComparisonOperator
negation greater_than = less_than_or_equal
negation greater_than_or_equal = less_than
negation less_than = greater_than_or_equal
negation less_than_or_equal = greater_than

-- coefficient × 10 ^ exponent
abbrev pub scaled : ℤ → ℤ → Decimal
scaled a e = record { coefficient = a; exponent = e }

-- The operator with its operands exchanged.
abbrev pub converse : ComparisonOperator → ComparisonOperator
converse greater_than = less_than
converse greater_than_or_equal = less_than_or_equal
converse less_than = greater_than
converse less_than_or_equal = greater_than_or_equal

above_same : (a b e : ℤ) → above (scaled a e) (scaled b e) ≡ 0
unfolding above
above_same a b e = omega arith

scale_one : (a : ℤ) → scale a 1 ≡ a
unfolding scale
scale_one (pos n) = ground arith
scale_one (negsuc n) = ground arith

aligned_same : (a b e : ℤ) → aligned (scaled a e) (scaled b e) ≡ a
unfolding aligned
aligned_same a b e = rw (above_same a b e) (scale_one a)

ltb_dec_same : (a b e : ℤ) → ltb_dec (scaled a e) (scaled b e) ≡ ltb_ℤ a b
unfolding ltb_dec
ltb_dec_same a b e = ap₂ ltb_ℤ (aligned_same a b e) (aligned_same b a e)

-- For every value and threshold: of two decimals with one exponent, the first is greater than the second when
-- its coefficient is the greater integer; an operator matches exactly when its negation does not, it agrees
-- with its converse on exchanged operands, and the two inclusive operators are the strict ones or
-- equality.
pub compare_values_laws :
    (v t : Decimal) (o : ComparisonOperator)
    → ((a b e : ℤ) → compare_values (scaled a e) (scaled b e) greater_than ≡ ltb_ℤ b a)
      × (compare_values v t o ≡ not (compare_values v t (negation o)))
      × (compare_values v t o ≡ compare_values t v (converse o))
      × (compare_values v t greater_than_or_equal
          ≡ (compare_values v t greater_than || eqb_dec t v))
      × (compare_values v t less_than_or_equal ≡ (compare_values v t less_than || eqb_dec v t))
unfolding compare_values
compare_values_laws v t greater_than =
    (λ a b e. ltb_dec_same b a e, ltb_dec-eq-not t v, refl, leb_dec-eq-or t v, leb_dec-eq-or v t)
compare_values_laws v t greater_than_or_equal = (
  λ a b e. ltb_dec_same b a e,
  ground (arith, ltb_dec-eq-not v t),
  refl,
  leb_dec-eq-or t v,
  leb_dec-eq-or v t,
)
compare_values_laws v t less_than =
    (λ a b e. ltb_dec_same b a e, ltb_dec-eq-not v t, refl, leb_dec-eq-or t v, leb_dec-eq-or v t)
compare_values_laws v t less_than_or_equal = (
  λ a b e. ltb_dec_same b a e,
  ground (arith, ltb_dec-eq-not t v),
  refl,
  leb_dec-eq-or t v,
  leb_dec-eq-or v t,
)
