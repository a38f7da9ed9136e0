-- ===== src/Metric/Calculate.antt =====
-- The calculators of app/domain/metric_calculator.py.
use stock_master.Prelude.{
  ℕ, List, [], ◌∷◌, ◌++◌, last_n, Option, none, some, Result, ok, err, metric_calculation, raise_if,
  ◌>>=◌, ◌>>◌,
}
use mathlib.Core.List.{foldl, reverse}
use stock_master.Decimal.{Decimal, of_ℕ, eqb_dec}
use stock_master.Decimal.Arithmetic.{add, div}
use stock_master.Thesis.{
  MetricCode, daily_price_change_percent, volume_ratio_20d, pe_ratio, pe_ratio_change_percent,
  price_to_book_ratio, price_to_book_change_percent, ebitda,
}
use stock_master.Metric.{MetricResult, make_metric_result}
use stock_master.Metric.Series.{
  prepare_daily_bars, prepare_fundamentals, fundamental_data_as_of, percentage_change,
  require_observation_id,
}
use stock_master.MarketData.{DailyBar, CompanyFundamentals}

-- the members of `xs[-2:]`, when there are two
unfoldable pub last_two : {A : Type 0} → List A → Option (A × A)
last_two [] = none
last_two (x ∷ []) = none
last_two (x ∷ y ∷ []) = some (x, y)
last_two (x ∷ y ∷ z ∷ xs) = last_two (y ∷ z ∷ xs)

-- a result with the default calculation version
abbrev pub result_of : MetricCode → Decimal → ℕ → List ℕ → MetricResult
result_of metric value date ids = record {
  metric = metric;
  value = value;
  data_as_of = date;
  observation_ids = ids;
  calculation_version = 1;
}

-- the price change from one bar to the next
unfoldable pub price_change : DailyBar → DailyBar → Result MetricResult
price_change previous current = do
  value ← percentage_change current.close previous.close
  first ← require_observation_id previous.observation_id
  second ← require_observation_id current.observation_id
  make_metric_result
      (result_of daily_price_change_percent value current.trading_date (first ∷ second ∷ []))

unfoldable pub price_change_of_last : Option (DailyBar × DailyBar) → Result MetricResult
price_change_of_last none = err metric_calculation
price_change_of_last (some (previous, current)) = price_change previous current

unfoldable pub calculate_daily_price_change_percent : List DailyBar → Result MetricResult
calculate_daily_price_change_percent bars = do
  ordered ← prepare_daily_bars 2 bars
  price_change_of_last (last_two ordered)

-- `xs[:-1]` and `xs[-1]`, when there is a last member
unfoldable pub split_last : {A : Type 0} → List A → Option (List A × A)
split_last [] = none
split_last (x ∷ []) = some ([], x)
split_last (x ∷ y ∷ xs) = elim (split_last (y ∷ xs)) [
  | none ↦ none
  | some (front, z) ↦ some (x ∷ front, z)
]

-- `tuple(_require_observation_id(bar) for bar in bars)`
unfoldable pub require_bar_ids : List DailyBar → Result (List ℕ)
require_bar_ids [] = ok []
require_bar_ids (b ∷ bs) = do
  id ← require_observation_id b.observation_id
  ids ← require_bar_ids bs
  ok (id ∷ ids)

-- the sum of the volumes over the length of the window
unfoldable pub average_volume : List DailyBar → Decimal
average_volume history =
    div (foldl (λ total (b : DailyBar). add total (of_ℕ b.volume)) (of_ℕ 0) history) (of_ℕ 20)

-- the volume of a bar against the twenty before it
unfoldable pub volume_ratio : List DailyBar → DailyBar → Result MetricResult
volume_ratio history current = do
  raise_if (eqb_dec (average_volume history) (of_ℕ 0)) metric_calculation
  ids ← require_bar_ids (history ++ current ∷ [])
  make_metric_result (
      result_of volume_ratio_20d (div (of_ℕ current.volume) (average_volume history))
        current.trading_date ids)

unfoldable pub volume_ratio_of_window : Option (List DailyBar × DailyBar) → Result MetricResult
volume_ratio_of_window none = err metric_calculation
volume_ratio_of_window (some (history, current)) = volume_ratio history current

unfoldable pub calculate_volume_ratio_20d : List DailyBar → Result MetricResult
calculate_volume_ratio_20d bars = do
  ordered ← prepare_daily_bars 21 bars
  volume_ratio_of_window (split_last (last_n 21 ordered))

module _ (metric : MetricCode) (selector : CompanyFundamentals → Option Decimal) where
  -- the result from one snapshot and its value
  unfoldable pub current_value : CompanyFundamentals → Decimal → Result MetricResult
  current_value snapshot value = do
    id ← require_observation_id snapshot.observation_id
    make_metric_result (result_of metric value (fundamental_data_as_of snapshot) (id ∷ []))

  -- the loop over `reversed(ordered)`
  unfoldable pub first_available : List CompanyFundamentals → Result MetricResult
  first_available [] = err metric_calculation
  first_available (s ∷ rest) = elim (selector s) [
    | none ↦ first_available rest
    | some value ↦ current_value s value
  ]

  unfoldable pub calculate_current_fundamental : List CompanyFundamentals → Result MetricResult
  calculate_current_fundamental snapshots = do
    ordered ← prepare_fundamentals snapshots
    first_available (reverse ordered)

  -- the snapshots that have a value, with the value
  unfoldable pub available : List CompanyFundamentals → List (CompanyFundamentals × Decimal)
  available [] = []
  available (s ∷ rest) = elim (selector s) [
    | none ↦ available rest
    | some value ↦ (s, value) ∷ available rest
  ]

  -- the change from one snapshot's value to another's
  unfoldable pub value_change :
      CompanyFundamentals × Decimal → CompanyFundamentals × Decimal → Result MetricResult
  value_change (previous, before) (current, after) = do
    value ← percentage_change after before
    first ← require_observation_id previous.observation_id
    second ← require_observation_id current.observation_id
    make_metric_result
        (result_of metric value (fundamental_data_as_of current) (first ∷ second ∷ []))

  unfoldable pub value_change_of_last :
      Option ((CompanyFundamentals × Decimal) × (CompanyFundamentals × Decimal))
      → Result MetricResult
  value_change_of_last none = err metric_calculation
  value_change_of_last (some (previous, current)) = value_change previous current

  unfoldable pub calculate_fundamental_change : List CompanyFundamentals → Result MetricResult
  calculate_fundamental_change snapshots = do
    ordered ← prepare_fundamentals snapshots
    value_change_of_last (last_two (available ordered))

unfoldable pub calculate_pe_ratio : List CompanyFundamentals → Result MetricResult
calculate_pe_ratio = calculate_current_fundamental pe_ratio (λ item. item.pe_ratio)

unfoldable pub calculate_pe_ratio_change_percent : List CompanyFundamentals → Result MetricResult
calculate_pe_ratio_change_percent =
    calculate_fundamental_change pe_ratio_change_percent (λ item. item.pe_ratio)

unfoldable pub calculate_price_to_book_ratio : List CompanyFundamentals → Result MetricResult
calculate_price_to_book_ratio =
    calculate_current_fundamental price_to_book_ratio (λ item. item.price_to_book_ratio)

unfoldable pub calculate_price_to_book_change_percent :
    List CompanyFundamentals → Result MetricResult
calculate_price_to_book_change_percent =
    calculate_fundamental_change price_to_book_change_percent (λ item. item.price_to_book_ratio)

unfoldable pub calculate_ebitda : List CompanyFundamentals → Result MetricResult
calculate_ebitda = calculate_current_fundamental ebitda (λ item. item.ebitda)
