-- ===== src/Metric/Registry/Laws.antt =====
-- What the registry of app/domain/metric_registry.py guarantees.
use stock_master.Prelude.{ℕ, ◌≡◌, ◌≤◌, refl, sym, ◌∙◌, List, true, length, Result, ok, err, arith}
use stock_master.Thesis.{
  MetricCode, daily_price_change_percent, volume_ratio_20d, pe_ratio_change_percent,
  price_to_book_change_percent,
}
use stock_master.Thesis.Laws.{same_metric→eq}
use stock_master.Metric.{MetricResult}
use stock_master.MarketData.{DailyBar, CompanyFundamentals}
use stock_master.Metric.Registry.{
  make_definition, MetricInputKind, daily_bars, fundamentals, MetricDefinition, calculators_fit,
  validate_result, calculate_daily, calculate_fundamentals, metric_definitions, registered,
  register_all, some_missing, build_registry, get_metric_definition, calculate_daily_metric,
  calculate_fundamental_metric, same_input,
}

-- The input that a metric is calculated from, and the number of observations it needs.
abbrev pub input_of : MetricCode → MetricInputKind
input_of daily_price_change_percent = daily_bars
input_of volume_ratio_20d = daily_bars
input_of _ = fundamentals

abbrev pub needed : MetricCode → ℕ
needed daily_price_change_percent = 2
needed volume_ratio_20d = 21
needed pe_ratio_change_percent = 2
needed price_to_book_change_percent = 2
needed _ = 1

-- The definition of every metric is found, and it carries that metric, its input kind and the number of
-- observations it needs.
get_metric_definition_total :
    (metric : MetricCode)
    → (d : MetricDefinition) × (get_metric_definition metric ≡ ok d)
      × (d.metric ≡ metric)
      × (d.input_kind ≡ input_of metric)
      × (d.required_observations ≡ needed metric)
unfolding get_metric_definition build_registry register_all some_missing registered
    metric_definitions make_definition calculators_fit
get_metric_definition_total daily_price_change_percent = (_, refl, refl, refl, refl)
get_metric_definition_total _ = (_, refl, refl, refl, refl)

-- A result from `n` observations of a kind is of the metric that was asked for, which takes that kind
-- and no more than `n` of them.
abbrev pub Dispatched : MetricInputKind → MetricCode → ℕ → Result MetricResult → Type 0
Dispatched kind metric n (err e) = Unit {0}
Dispatched kind metric n (ok r) =
    (r.metric ≡ metric) × (input_of metric ≡ kind) × (needed metric ≤ n)

Dispatched-of :
    (kind : MetricInputKind) (metric : MetricCode) (n : ℕ) (x : Result MetricResult)
    → ((r : MetricResult) → x ≡ ok r → Dispatched kind metric n (ok r))
    → Dispatched kind metric n x
Dispatched-of kind metric n (err e) h = tt
Dispatched-of kind metric n (ok r) h = h r refl

same_input→eq : (a b : MetricInputKind) → same_input a b ≡ true → a ≡ b
same_input→eq daily_bars daily_bars h = refl
same_input→eq fundamentals fundamentals h = refl
same_input→eq daily_bars fundamentals h = absurd (ground arith)
same_input→eq fundamentals daily_bars h = absurd (ground arith)

module _ (d : MetricDefinition) (r : MetricResult) where
  calculate_daily-ok :
      (bars : List DailyBar)
      → calculate_daily d bars ≡ ok r
      → (r.metric ≡ d.metric)
        × (d.input_kind ≡ daily_bars)
        × (d.required_observations ≤ length bars)
  unfolding calculate_daily validate_result
  calculate_daily-ok bars h =
      ground (arith, same_input→eq d.input_kind daily_bars, same_metric→eq _ d.metric)

  calculate_fundamentals-ok :
      (snapshots : List CompanyFundamentals)
      → calculate_fundamentals d snapshots ≡ ok r
      → (r.metric ≡ d.metric)
        × (d.input_kind ≡ fundamentals)
        × (d.required_observations ≤ length snapshots)
  unfolding calculate_fundamentals validate_result
  calculate_fundamentals-ok snapshots h =
      ground (arith, same_input→eq d.input_kind fundamentals, same_metric→eq _ d.metric)

-- Whatever the bars: a daily metric that is calculated is of the requested code, which is a metric of
-- daily bars, from at least the number of bars that the metric needs.
pub calculate_daily_metric-Dispatched :
    (metric : MetricCode) (bars : List DailyBar)
    → Dispatched daily_bars metric (length bars) (calculate_daily_metric metric bars)
unfolding calculate_daily_metric
calculate_daily_metric-Dispatched metric bars =
    let (d, found, m, k, n) = get_metric_definition_total metric in
    Dispatched-of daily_bars metric (length bars) _ λ r h.
      let (rm, rk, rn) = calculate_daily-ok d r bars (ground (arith, h, found)) in
      (rm ∙ m, sym k ∙ rk, omega (arith, n, rn))

-- Whatever the snapshots: a fundamental metric that is calculated is of the requested code, which is
-- a metric of fundamentals, from at least the number of snapshots that the metric needs.
pub calculate_fundamental_metric-Dispatched :
    (metric : MetricCode) (snapshots : List CompanyFundamentals)
    → Dispatched fundamentals metric
        (length snapshots)
        (calculate_fundamental_metric metric snapshots)
unfolding calculate_fundamental_metric
calculate_fundamental_metric-Dispatched metric snapshots =
    let (d, found, m, k, n) = get_metric_definition_total metric in
    Dispatched-of fundamentals metric (length snapshots) _ λ r h.
      let (rm, rk, rn) = calculate_fundamentals-ok d r snapshots (ground (arith, h, found)) in
      (rm ∙ m, sym k ∙ rk, omega (arith, n, rn))
