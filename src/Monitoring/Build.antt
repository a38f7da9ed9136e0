-- ===== src/Monitoring/Build.antt =====
-- app/services/thesis_monitoring_service.py: what the service builds without the session, and its pure
-- tests.
use stock_master.Prelude.{
  ℕ, Text, List, [], ◌∷◌, ◌++◌, Bool, ◌||◌, not, ltb, max, length, Option, none, some, Result, ok,
  err, thesis_not_monitorable, invalid_monitoring_source, raise_if, if◌then◌else◌, ◌>>=◌, codes,
}
use stock_master.Text.{strip, lower}
use stock_master.Text.Render.{int_text, decimal_text, uuid_text}
use stock_master.Thesis.{
  DateTime, InvestmentThesis, ThesisCondition, ThesisStatus, active, challenged, same_status,
  ConditionKind, support, risk, invalidation, MetricCode, daily_price_change_percent,
  volume_ratio_20d, pe_ratio, pe_ratio_change_percent, price_to_book_ratio,
  price_to_book_change_percent, ebitda, ComparisonOperator, greater_than, greater_than_or_equal,
  less_than, less_than_or_equal,
}
use stock_master.Event.{
  RuleEvaluation, DomainEvent, EventEvidence, EventSeverity, info, warning, critical, open_event,
  metric_observation, make_event, make_evidence, is_empty,
}
use stock_master.MarketData.{DailyBar, CompanyFundamentals}
use stock_master.Metric.{MetricResult}
use stock_master.Metric.Registry.{
  MetricDefinition, MetricInputKind, daily_bars, fundamentals, same_input, get_metric_definition,
  calculate_daily, calculate_fundamentals,
}

-- the values of the enumerations
unfoldable pub metric_text : MetricCode → Text
metric_text daily_price_change_percent = codes "daily_price_change_percent"
metric_text volume_ratio_20d = codes "volume_ratio_20d"
metric_text pe_ratio = codes "pe_ratio"
metric_text pe_ratio_change_percent = codes "pe_ratio_change_percent"
metric_text price_to_book_ratio = codes "price_to_book_ratio"
metric_text price_to_book_change_percent = codes "price_to_book_change_percent"
metric_text ebitda = codes "ebitda"

unfoldable pub operator_text : ComparisonOperator → Text
operator_text greater_than = codes "greater_than"
operator_text greater_than_or_equal = codes "greater_than_or_equal"
operator_text less_than = codes "less_than"
operator_text less_than_or_equal = codes "less_than_or_equal"

unfoldable pub kind_text : ConditionKind → Text
kind_text support = codes "support"
kind_text risk = codes "risk"
kind_text invalidation = codes "invalidation"

unfoldable pub severity_for : ConditionKind → EventSeverity
severity_for support = info
severity_for risk = warning
severity_for invalidation = critical

-- `_normalize_source` of the service
unfoldable pub monitoring_source : Text → Result Text
monitoring_source source =
    let normalized = lower (strip source) in
    if is_empty normalized
    then err invalid_monitoring_source
    else if ltb 50 (length normalized)
    then err invalid_monitoring_source
    else ok normalized

-- `thesis.status in monitorable_statuses`
unfoldable pub is_monitorable : ThesisStatus → Bool
is_monitorable status = same_status status active || same_status status challenged

unfoldable pub require_monitorable_thesis : InvestmentThesis → Result (Unit {0})
require_monitorable_thesis thesis =
    raise_if (not (is_monitorable thesis.status)) thesis_not_monitorable

-- `requirements` of `_maximum_required_observations`
unfoldable pub requirements : MetricInputKind → List ThesisCondition → Result (List ℕ)
requirements input [] = ok []
requirements input (c ∷ cs) = do
  definition ← get_metric_definition c.metric
  others ← requirements input cs
  ok (
      if same_input definition.input_kind input
      then definition.required_observations ∷ others
      else others)

-- `max(requirements) if requirements else None`
unfoldable pub maximum : List ℕ → Option ℕ
maximum [] = none
maximum (n ∷ ns) = some (elim (maximum ns) [ none ↦ n | some m ↦ max n m ])

unfoldable pub maximum_required_observations :
    MetricInputKind → List ThesisCondition → Result (Option ℕ)
maximum_required_observations input conditions = do
  numbers ← requirements input conditions
  ok (maximum numbers)

-- `_calculate_metric`
unfoldable pub calculate_by :
    MetricInputKind
    → MetricDefinition
    → List DailyBar
    → List CompanyFundamentals
    → Result MetricResult
calculate_by daily_bars definition bars snapshots = calculate_daily definition bars
calculate_by fundamentals definition bars snapshots = calculate_fundamentals definition snapshots

unfoldable pub calculate_metric :
    MetricDefinition → List DailyBar → List CompanyFundamentals → Result MetricResult
calculate_metric definition bars snapshots =
    calculate_by definition.input_kind definition bars snapshots

-- the `summary` of an event
unfoldable pub event_summary : RuleEvaluation → Text
event_summary e =
    codes "Metric "
    ++ metric_text e.metric
    ++ codes " produced "
    ++ decimal_text e.observed_value
    ++ codes ", matching "
    ++ operator_text e.operator
    ++ codes " threshold "
    ++ decimal_text e.threshold
    ++ codes " for "
    ++ int_text e.consecutive_periods_matched
    ++ codes " consecutive period(s)."

-- `_build_event`, with the identifier and the time that are drawn for it
unfoldable pub build_event : ℕ → DateTime → ThesisCondition → RuleEvaluation → Result DomainEvent
build_event id instant condition e = make_event (record {
  id = id;
  user_id = e.user_id;
  thesis_id = e.thesis_id;
  condition_id = e.condition_id;
  evaluation_id = e.id;
  symbol = e.symbol;
  event_type = kind_text condition.kind ++ codes "_condition_matched";
  severity = severity_for condition.kind;
  status = open_event;
  title = condition.name;
  summary = event_summary e;
  occurred_on = e.data_as_of;
  detected_at = instant;
  rule_version = e.rule_version;
})

-- one item of `_build_evidence`
unfoldable pub build_item : ℕ → DomainEvent → RuleEvaluation → Text → ℕ → Result EventEvidence
build_item id event e source observation_id = make_evidence (record {
  id = id;
  event_id = event.id;
  user_id = event.user_id;
  evidence_type = metric_observation;
  source = source;
  source_record_id = some observation_id;
  source_reference = some (metric_text e.metric ++ b':' ∷ uuid_text observation_id);
  metric = some e.metric;
  observed_value = some e.observed_value;
  description =
      codes "Normalized observation used to calculate " ++ metric_text e.metric ++ codes ".";
  excerpt = none;
  data_as_of = some e.data_as_of;
  published_at = none;
  observed_at = event.detected_at;
})
