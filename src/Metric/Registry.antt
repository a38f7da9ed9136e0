-- ===== src/Metric/Registry.antt =====
-- app/domain/metric_registry.py: the definition of each metric, and the dispatch to its calculator.
pub mod Laws
use stock_master.Prelude.{
  ℕ, List, [], ◌∷◌, Bool, true, false, ◌&&◌, not, leb, ltb, ◌==◌, length, Option, none, some,
  Result, ok, err, metric_registry, raise_if, or_raise, ◌>>=◌, ◌>>◌, if◌then◌else◌, find?,
}
use stock_master.Thesis.{
  MetricCode, metric_index, same_metric, daily_price_change_percent, volume_ratio_20d, pe_ratio,
  pe_ratio_change_percent, price_to_book_ratio, price_to_book_change_percent, ebitda,
}
use stock_master.Metric.{MetricResult}
use stock_master.MarketData.{DailyBar, CompanyFundamentals}
use stock_master.Metric.Calculate.{
  calculate_daily_price_change_percent, calculate_volume_ratio_20d, calculate_pe_ratio,
  calculate_pe_ratio_change_percent, calculate_price_to_book_ratio,
  calculate_price_to_book_change_percent, calculate_ebitda,
}

pub data MetricInputKind : Type 0 where
  daily_bars fundamentals : MetricInputKind

abbrev pub same_input : MetricInputKind → MetricInputKind → Bool
same_input daily_bars daily_bars = true
same_input fundamentals fundamentals = true
same_input _ _ = false

pub record MetricDefinition : Type 0 where
  pub metric : MetricCode
  pub input_kind : MetricInputKind
  pub required_observations : ℕ
  pub daily_calculator : Option (List DailyBar → Result MetricResult)
  pub fundamental_calculator : Option (List CompanyFundamentals → Result MetricResult)

abbrev given : {A : Type 0} → Option A → Bool
given none = false
given (some a) = true

-- the calculators fit the input kind
unfoldable pub calculators_fit : MetricInputKind → Bool → Bool → Bool
calculators_fit daily_bars daily fundamental = daily && not fundamental
calculators_fit fundamentals daily fundamental = fundamental && not daily

-- `__post_init__`
unfoldable pub make_definition : MetricDefinition → Result MetricDefinition
make_definition d =
    raise_if (ltb d.required_observations 1) metric_registry
    >> raise_if
        (not (
          calculators_fit d.input_kind (given d.daily_calculator) (given d.fundamental_calculator)))
        metric_registry
    >> ok d

-- `_validate_result`
unfoldable pub validate_result : MetricCode → MetricResult → Result MetricResult
validate_result metric r = raise_if (not (same_metric r.metric metric)) metric_registry >> ok r

unfoldable pub calculate_daily : MetricDefinition → List DailyBar → Result MetricResult
calculate_daily d bars = do
  raise_if (not (same_input d.input_kind daily_bars)) metric_registry
  raise_if (ltb (length bars) d.required_observations) metric_registry
  calculator ← or_raise d.daily_calculator metric_registry
  result ← calculator bars
  validate_result d.metric result

unfoldable pub calculate_fundamentals :
    MetricDefinition → List CompanyFundamentals → Result MetricResult
calculate_fundamentals d snapshots = do
  raise_if (not (same_input d.input_kind fundamentals)) metric_registry
  raise_if (ltb (length snapshots) d.required_observations) metric_registry
  calculator ← or_raise d.fundamental_calculator metric_registry
  result ← calculator snapshots
  validate_result d.metric result

abbrev daily_definition : MetricCode → ℕ → (List DailyBar → Result MetricResult) → MetricDefinition
daily_definition metric required calculator = record {
  metric = metric;
  input_kind = daily_bars;
  required_observations = required;
  daily_calculator = some calculator;
  fundamental_calculator = none;
}

abbrev fundamental_definition :
    MetricCode → ℕ → (List CompanyFundamentals → Result MetricResult) → MetricDefinition
fundamental_definition metric required calculator = record {
  metric = metric;
  input_kind = fundamentals;
  required_observations = required;
  daily_calculator = none;
  fundamental_calculator = some calculator;
}

-- `_METRIC_DEFINITIONS`
unfoldable pub metric_definitions : List MetricDefinition
metric_definitions =
    daily_definition daily_price_change_percent 2 calculate_daily_price_change_percent
    ∷ daily_definition volume_ratio_20d 21 calculate_volume_ratio_20d
    ∷ fundamental_definition pe_ratio 1 calculate_pe_ratio
    ∷ fundamental_definition pe_ratio_change_percent 2 calculate_pe_ratio_change_percent
    ∷ fundamental_definition price_to_book_ratio 1 calculate_price_to_book_ratio
    ∷ fundamental_definition price_to_book_change_percent 2 calculate_price_to_book_change_percent
    ∷ fundamental_definition ebitda 1 calculate_ebitda
    ∷ []

-- `registry.get(metric)`
unfoldable pub registered : MetricCode → List MetricDefinition → Option MetricDefinition
registered metric [] = none
registered metric (d ∷ ds) = elim (same_metric d.metric metric) [
  | true ↦ some d
  | false ↦ registered metric ds
]

-- the members of `MetricCode`
abbrev pub metric_codes : List MetricCode
metric_codes =
    daily_price_change_percent ∷ volume_ratio_20d ∷ pe_ratio ∷ pe_ratio_change_percent
    ∷ price_to_book_ratio ∷ price_to_book_change_percent ∷ ebitda ∷ []

-- the loop of `_build_registry`: `registry` holds the definitions read so far, newest first
unfoldable pub register_all :
    List MetricDefinition → List MetricDefinition → Result (List MetricDefinition)
register_all registry [] = ok registry
register_all registry (d ∷ ds) =
    raise_if (given (registered d.metric registry)) metric_registry
    >> register_all (d ∷ registry) ds

-- a member of `MetricCode` is missing
unfoldable pub some_missing : List MetricDefinition → List MetricCode → Bool
some_missing registry [] = false
some_missing registry (m ∷ ms) = elim (given (registered m registry)) [
  | true ↦ some_missing registry ms
  | false ↦ true
]

unfoldable pub build_registry : List MetricDefinition → Result (List MetricDefinition)
build_registry definitions = do
  registry ← register_all [] definitions
  raise_if (some_missing registry metric_codes) metric_registry
  ok registry

-- `get_metric_definition`, in the registry that was built
unfoldable pub get_metric_definition : MetricCode → Result MetricDefinition
get_metric_definition metric = do
  registry ← build_registry metric_definitions
  or_raise (registered metric registry) metric_registry

unfoldable pub calculate_daily_metric : MetricCode → List DailyBar → Result MetricResult
calculate_daily_metric metric bars = do d ← get_metric_definition metric; calculate_daily d bars

unfoldable pub calculate_fundamental_metric :
    MetricCode → List CompanyFundamentals → Result MetricResult
calculate_fundamental_metric metric snapshots = do
  d ← get_metric_definition metric
  calculate_fundamentals d snapshots
