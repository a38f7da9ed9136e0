-- ===== src/Decimal/Compare.antt =====
-- The order of the decimals: each test against the others.
use stock_master.Prelude.{◌≡◌, not, ◌||◌, arith}
use stock_master.Decimal.{Decimal, ltb_dec, leb_dec, eqb_dec}

module _ (a b : Decimal) where
  -- Exactly one of `a < b` and `b <= a` holds.
  pub ltb_dec-eq-not : ltb_dec a b ≡ not (leb_dec b a)
  unfolding ltb_dec leb_dec
  ltb_dec-eq-not = ground arith

  -- `<=` is `<` or `==`.
  pub leb_dec-eq-or : leb_dec a b ≡ (ltb_dec a b || eqb_dec a b)
  unfolding ltb_dec leb_dec eqb_dec
  leb_dec-eq-or = ground arith
