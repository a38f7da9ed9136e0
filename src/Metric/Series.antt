-- ===== src/Metric/Series.antt =====
-- The preparation steps of app/domain/metric_calculator.py: enough observations of one series, one
-- for each date, in the order of their dates.
pub mod Laws
use stock_master.Prelude.{
  ℕ, Text, List, [], ◌∷◌, Bool, true, false, ◌&&◌, ◌||◌, leb, ltb, not, ◌==◌, length, map, Option,
  none, some, Result, ok, err, metric_calculation, raise_if, ◌>>◌, if◌then◌else◌, text_eq,
}
use stock_master.Prelude.Order.{sorted}
use stock_master.Decimal.{Decimal, of_ℕ, eqb_dec}
use stock_master.Decimal.Arithmetic.{sub, div, mul}
use stock_master.Thesis.{DateTime}
use stock_master.Event.{is_empty}
use stock_master.Metric.{all_distinct}
use stock_master.MarketData.{DailyBar, CompanyFundamentals, same_adjustment}

-- `len({key(x) for x in xs}) == 1`, by an equality test of the keys
unfoldable pub one_series : {A : Type 0} → (A → A → Bool) → List A → Bool
one_series same [] = false
one_series same (x ∷ []) = true
one_series same (x ∷ y ∷ xs) = same x y && one_series same (x ∷ xs)

-- equal `(item.symbol, item.source, item.adjustment)`
unfoldable pub same_bar_series : DailyBar → DailyBar → Bool
same_bar_series a b =
    text_eq a.symbol b.symbol
    && text_eq a.source b.source
    && same_adjustment a.adjustment b.adjustment

-- equal `(item.symbol, item.source)`
unfoldable pub same_snapshot_series : CompanyFundamentals → CompanyFundamentals → Bool
same_snapshot_series a b = text_eq a.symbol b.symbol && text_eq a.source b.source

-- `key=lambda item: item.trading_date`
unfoldable pub bar_before : DailyBar → DailyBar → Bool
bar_before a b = leb a.trading_date b.trading_date

unfoldable pub prepare_daily_bars : ℕ → List DailyBar → Result (List DailyBar)
prepare_daily_bars minimum bars =
    let ordered = sorted bar_before bars in
    raise_if (ltb (length bars) minimum) metric_calculation
    >> raise_if (not (one_series same_bar_series ordered)) metric_calculation
    >> raise_if (not (all_distinct (map (λ (b : DailyBar). b.trading_date) ordered)))
        metric_calculation
    >> ok ordered

-- `snapshot.snapshot_date or snapshot.received_at.date()`; a `date` is never falsy
unfoldable pub fundamental_data_as_of : CompanyFundamentals → ℕ
fundamental_data_as_of s = elim s.snapshot_date [ none ↦ s.received_at.date | some d ↦ d ]

-- `key=lambda item: (_fundamental_data_as_of(item), item.received_at)`
unfoldable pub snapshot_before : CompanyFundamentals → CompanyFundamentals → Bool
snapshot_before a b =
    ltb (fundamental_data_as_of a) (fundamental_data_as_of b)
    || ((fundamental_data_as_of a == fundamental_data_as_of b)
        && leb a.received_at.instant b.received_at.instant)

unfoldable pub prepare_fundamentals : List CompanyFundamentals → Result (List CompanyFundamentals)
prepare_fundamentals snapshots =
    let ordered = sorted snapshot_before snapshots in
    raise_if (is_empty snapshots) metric_calculation
    >> raise_if (not (one_series same_snapshot_series ordered)) metric_calculation
    >> raise_if (not (all_distinct (map fundamental_data_as_of ordered))) metric_calculation
    >> ok ordered

-- `((current - previous) / previous) * 100`
unfoldable pub percentage_change : Decimal → Decimal → Result Decimal
percentage_change current previous =
    raise_if (eqb_dec previous (of_ℕ 0)) metric_calculation
    >> ok (mul (div (sub current previous) previous) (of_ℕ 100))

-- `_require_observation_id`
unfoldable pub require_observation_id : Option ℕ → Result ℕ
require_observation_id none = err metric_calculation
require_observation_id (some id) = ok id
