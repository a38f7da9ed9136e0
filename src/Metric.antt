-- ===== src/Metric.antt =====
-- app/domain/metric_calculator.py: the result of a metric and its validators. The calculators and
-- the registry are in the children.
pub mod Bars
pub mod Calculate
pub mod Snapshots
pub mod Fundamentals
pub mod Registry
pub mod Series
mod Tests
use stock_master.Prelude.{
  ℕ, List, [], ◌∷◌, Bool, true, false, ◌&&◌, ◌||◌, ◌==◌, leb, not, Result, ok, err,
  validation_error, if◌then◌else◌,
}
use stock_master.Decimal.{Decimal}
use stock_master.Thesis.{MetricCode}
use stock_master.Event.{is_empty}

pub record MetricResult : Type 0 where
  pub metric : MetricCode
  pub value : Decimal
  pub data_as_of : ℕ
  pub observation_ids : List ℕ
  pub calculation_version : ℕ

-- `x in s`
unfoldable pub contains : ℕ → List ℕ → Bool
contains x [] = false
contains x (y ∷ ys) = (x == y) || contains x ys

-- `len(s) == len(set(s))`
unfoldable pub all_distinct : List ℕ → Bool
unfolding contains
all_distinct [] = true
all_distinct (x ∷ xs) = not (contains x xs) && all_distinct xs

-- `MetricResult(...)`, with the default calculation version
unfoldable pub make_metric_result : MetricResult → Result MetricResult
unfolding all_distinct
make_metric_result r =
    if not (is_empty r.observation_ids)
      && all_distinct r.observation_ids
      && leb 1 r.calculation_version
    then ok r
    else err validation_error
