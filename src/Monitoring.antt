-- ===== src/Monitoring.antt =====
-- app/services/thesis_monitoring_service.py: one run of the monitoring of a thesis, over the tables
-- of the repositories.
pub mod Build
pub mod Answers
pub mod Invalidation
pub mod Reports
pub mod Runs
mod Tests
use stock_master.Prelude.{
  ℕ, ◌+◌, Text, List, [], ◌∷◌, Bool, true, false, ◌&&◌, not, ◌==◌, ltb, max, length, Option, none,
  some, Result, ok, err, data_not_collected, insufficient_data, if◌then◌else◌, find?, codes,
}
use mathlib.Core.Option
use stock_master.Prelude.Exec.{Exec, ◌>>=◌, ◌>>◌, pure, lift, raise_when}
use stock_master.Thesis.{
  DateTime, InvestmentThesis, ThesisCondition, invalidated, invalidation, same_status, same_kind,
}
use stock_master.Event.{RuleEvaluation, DomainEvent, EventEvidence, is_empty, is_some}
use stock_master.MarketData.{DailyBar, PriceAdjustment, CompanyFundamentals}
use stock_master.Metric.{MetricResult}
use stock_master.Metric.Registry.{get_metric_definition, daily_bars, fundamentals}
use stock_master.Rules.{evaluate_condition}
use stock_master.Store.{Session, uuid4, now}
use stock_master.Store.Theses.{require_thesis, ThesisUpdate, update_thesis}
use stock_master.Store.Conditions.{list_enabled_conditions}
use stock_master.Store.Evaluations.{save_rule_evaluation, list_prior_evaluations}
use stock_master.Store.Events.{save_event_with_evidence}
use stock_master.Store.Stock.{get_recent_daily_bars, get_company_fundamentals_history}
use stock_master.Monitoring.Build.{
  monitoring_source, require_monitorable_thesis, maximum_required_observations, calculate_metric,
  build_event, build_item,
}

pub record ConditionMonitoringResult : Type 0 where
  pub condition : ThesisCondition
  pub metric_result : MetricResult
  pub evaluation : RuleEvaluation
  pub event : Option DomainEvent
  pub evidence : List EventEvidence
  pub reused_evaluation : Bool

pub record ThesisMonitoringResult : Type 0 where
  pub thesis : InvestmentThesis
  pub source : Text
  pub started_at : DateTime
  pub completed_at : DateTime
  pub conditions : List ConditionMonitoringResult

unfoldable pub evaluation_count : ThesisMonitoringResult → ℕ
evaluation_count result = length result.conditions

-- `sum(...)` of Booleans
unfoldable pub count_true : {A : Type 0} → (A → Bool) → List A → ℕ
count_true p [] = 0
count_true p (x ∷ xs) = (if p x then 1 else 0) + count_true p xs

unfoldable pub matched_count : ThesisMonitoringResult → ℕ
matched_count result = count_true (λ r. r.evaluation.matched) result.conditions

unfoldable pub event_count : ThesisMonitoringResult → ℕ
event_count result = count_true (λ r. is_some r.event) result.conditions

-- what the run reads of the daily bars
unfoldable pub read_daily_bars : Text → Text → PriceAdjustment → ℕ → Exec Session (List DailyBar)
read_daily_bars symbol source adjustment required = do
  bars ← get_recent_daily_bars symbol source adjustment required
  raise_when (is_empty bars) data_not_collected
  raise_when (ltb (length bars) required) insufficient_data
  pure bars

unfoldable pub load_daily_bars :
    InvestmentThesis → List ThesisCondition → Text → PriceAdjustment → Exec Session (List DailyBar)
load_daily_bars thesis conditions source adjustment = do
  required ← lift (maximum_required_observations daily_bars conditions)
  elim required [ none ↦ pure [] | some n ↦ read_daily_bars thesis.symbol source adjustment n ]

-- what the run reads of the snapshots: `limit` is `fundamental_history_limit`
unfoldable pub read_fundamentals : Text → Text → ℕ → ℕ → Exec Session (List CompanyFundamentals)
read_fundamentals symbol source limit required = do
  snapshots ← get_company_fundamentals_history symbol source (max required limit)
  raise_when (is_empty snapshots) data_not_collected
  raise_when (ltb (length snapshots) required) insufficient_data
  pure snapshots

unfoldable pub load_fundamentals :
    ℕ → InvestmentThesis → List ThesisCondition → Text → Exec Session (List CompanyFundamentals)
load_fundamentals limit thesis conditions source = do
  required ← lift (maximum_required_observations fundamentals conditions)
  elim required [ none ↦ pure [] | some n ↦ read_fundamentals thesis.symbol source limit n ]

unfoldable pub load_prior_evaluations : ThesisCondition → ℕ → Exec Session (List RuleEvaluation)
load_prior_evaluations condition data_as_of =
    if condition.consecutive_periods == 1
    then pure []
    else list_prior_evaluations
        (record {
          user_id = condition.user_id;
          thesis_id = condition.thesis_id;
          condition_id = condition.id;
          rule_version = condition.version;
          before = data_as_of;
        })
        1

-- `_build_evidence`: an item for each observation
unfoldable pub build_evidence :
    DomainEvent → RuleEvaluation → Text → List ℕ → Exec Session (List EventEvidence)
build_evidence event e source [] = pure []
build_evidence event e source (observation_id ∷ ids) = do
  id ← uuid4
  item ← lift (build_item id event e source observation_id)
  items ← build_evidence event e source ids
  pure (item ∷ items)

-- the event of a matched evaluation, with its evidence
unfoldable pub report_event :
    ThesisCondition → RuleEvaluation → Text → Exec Session (DomainEvent × List EventEvidence)
report_event condition evaluation source = do
  instant ← now
  id ← uuid4
  event ← lift (build_event id instant condition evaluation)
  evidence ← build_evidence event evaluation source evaluation.observation_ids
  save_event_with_evidence event evidence

-- the result of an evaluation that matched
unfoldable pub matched_result :
    ThesisCondition
    → MetricResult
    → RuleEvaluation
    → Bool
    → Text
    → Exec Session ConditionMonitoringResult
matched_result condition metric evaluation reused source = do
  saved ← report_event condition evaluation source
  pure (record {
    condition = condition;
    metric_result = metric;
    evaluation = evaluation;
    event = some saved.0;
    evidence = saved.1;
    reused_evaluation = reused;
  })

-- the result of an evaluation that did not
abbrev pub unmatched_result :
    ThesisCondition → MetricResult → RuleEvaluation → Bool → ConditionMonitoringResult
unmatched_result condition metric evaluation reused = record {
  condition = condition;
  metric_result = metric;
  evaluation = evaluation;
  event = none;
  evidence = [];
  reused_evaluation = reused;
}

-- `evaluate_condition`, with the identifier and the time that it draws, and the saving of its evaluation
unfoldable pub judge :
    InvestmentThesis
    → ThesisCondition
    → MetricResult
    → List RuleEvaluation
    → Exec Session (RuleEvaluation × RuleEvaluation)
judge thesis condition metric prior = do
  id ← uuid4
  instant ← now
  candidate ← lift (evaluate_condition id instant thesis condition metric prior)
  evaluation ← save_rule_evaluation candidate
  pure (candidate, evaluation)

-- `_evaluate_condition`
unfoldable pub monitor_condition :
    InvestmentThesis
    → ThesisCondition
    → Text
    → List DailyBar
    → List CompanyFundamentals
    → Exec Session ConditionMonitoringResult
monitor_condition thesis condition source bars snapshots = do
  definition ← lift (get_metric_definition condition.metric)
  metric ← lift (calculate_metric definition bars snapshots)
  prior ← load_prior_evaluations condition metric.data_as_of
  judged ← judge thesis condition metric prior
  let reused = not (judged.1.id == judged.0.id) in
      if judged.1.matched
      then matched_result condition metric judged.1 reused source
      else pure (unmatched_result condition metric judged.1 reused)

-- the loop over the conditions
unfoldable pub monitor_conditions :
    InvestmentThesis
    → Text
    → List DailyBar
    → List CompanyFundamentals
    → List ThesisCondition
    → Exec Session (List ConditionMonitoringResult)
monitor_conditions thesis source bars snapshots [] = pure []
monitor_conditions thesis source bars snapshots (c ∷ cs) = do
  result ← monitor_condition thesis c source bars snapshots
  results ← monitor_conditions thesis source bars snapshots cs
  pure (result ∷ results)

-- the clause of `invalidation_result`
unfoldable pub invalidates : ConditionMonitoringResult → Bool
invalidates r = same_kind r.condition.kind invalidation && r.evaluation.matched && is_some r.event

-- the update that marks the thesis as invalidated by an event
unfoldable pub invalidation_update : InvestmentThesis → ℕ → Option DomainEvent → ThesisUpdate
invalidation_update thesis user_id event = record {
  user_id = user_id;
  thesis_id = thesis.id;
  expected_version = thesis.version;
  title = none;
  description = none;
  status = some invalidated;
  reason = some (codes "An invalidation condition matched.");
  triggering_event_id = Option.map (λ e. e.id) event;
}

-- the thesis at the end of the run: `invalidation_result` is the first that invalidates
unfoldable pub conclude :
    InvestmentThesis → ℕ → Option ConditionMonitoringResult → Exec Session InvestmentThesis
conclude thesis user_id none = pure thesis
conclude thesis user_id (some r) =
    if same_status thesis.status invalidated
    then pure thesis
    else update_thesis (invalidation_update thesis user_id r.event)

-- the loads and the loop, and the thesis afterwards
unfoldable pub run_conditions :
    ℕ
    → ℕ
    → InvestmentThesis
    → Text
    → PriceAdjustment
    → List ThesisCondition
    → Exec Session (InvestmentThesis × List ConditionMonitoringResult)
run_conditions limit user_id thesis source adjustment conditions = do
  bars ← load_daily_bars thesis conditions source adjustment
  snapshots ← load_fundamentals limit thesis conditions source
  results ← monitor_conditions thesis source bars snapshots conditions
  final ← conclude thesis user_id (find? invalidates results)
  pure (final, results)

-- `limit` is `fundamental_history_limit`
unfoldable pub evaluate_thesis :
    ℕ → ℕ → ℕ → Text → PriceAdjustment → Exec Session ThesisMonitoringResult
evaluate_thesis limit user_id thesis_id source adjustment = do
  clean_source ← lift (monitoring_source source)
  started ← now
  thesis ← require_thesis user_id thesis_id
  lift (require_monitorable_thesis thesis)
  conditions ← list_enabled_conditions user_id thesis_id
  outcome ← run_conditions limit user_id thesis clean_source adjustment conditions
  completed ← now
  pure (record {
    thesis = outcome.0;
    source = clean_source;
    started_at = started;
    completed_at = completed;
    conditions = outcome.1;
  })
