-- ===== src/MarketData/Laws.antt =====
-- The adjustments of app/data_sources/models.py, and what the readers of bars keep.
use stock_master.Prelude.{◌≡◌, refl, true, ok, arith}
use stock_master.Text.{normalize_symbol, lower, strip}
use stock_master.MarketData.{
  DailyBar, CompanyFundamentals, PriceAdjustment, same_adjustment, raw, make_bar, make_fundamentals,
}

pub same_adjustment→eq : (a b : PriceAdjustment) → same_adjustment a b ≡ true → a ≡ b
same_adjustment→eq a b h = ground arith

pub same_adjustment_refl : (a : PriceAdjustment) → same_adjustment a a ≡ true
same_adjustment_refl raw = refl
same_adjustment_refl _ = refl

pub make_bar-fields :
    (row bar : DailyBar)
    → make_bar row ≡ ok bar
    → (bar.symbol ≡ normalize_symbol row.symbol)
      × (bar.source ≡ lower (strip row.source))
      × (bar.adjustment ≡ row.adjustment)
      × (bar.trading_date ≡ row.trading_date)
      × (bar.observation_id ≡ row.observation_id)
unfolding make_bar
make_bar-fields row bar h = ground arith

pub make_fundamentals-fields :
    (row f : CompanyFundamentals)
    → make_fundamentals row ≡ ok f
    → (f.symbol ≡ normalize_symbol row.symbol)
      × (f.source ≡ lower (strip row.source))
      × (f.snapshot_date ≡ row.snapshot_date)
      × (f.received_at ≡ row.received_at)
      × (f.observation_id ≡ row.observation_id)
unfolding make_fundamentals
make_fundamentals-fields row f h = ground arith
