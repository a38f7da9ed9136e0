-- ===== src/Rules.antt =====
-- app/domain/rule_engine.py: the deterministic evaluation of one condition. The identifier and
-- the instant of the new evaluation, which the model draws by default, are arguments here.
pub mod Compare
pub mod Consecutive
pub mod Counts
pub mod History
pub mod Outcome
pub mod Streak
mod Tests
use stock_master.Prelude.{
  ℕ, ◌+◌, ◌≤◌, ◌<◌, List, [], ◌∷◌, Bool, true, false, ◌&&◌, ◌||◌, ◌==◌, leb, ltb, not, min, Option,
  none, some, Result, ok, err, rule_evaluation, raise_if, ◌>>◌, ◌>>=◌, if◌then◌else◌, last?,
}
use stock_master.Prelude.Order.{sorted}
use stock_master.Decimal.{Decimal, ltb_dec, leb_dec}
use stock_master.Thesis.{
  DateTime, InvestmentThesis, ThesisCondition, ComparisonOperator, greater_than,
  greater_than_or_equal, less_than, less_than_or_equal, same_metric,
}
use stock_master.Event.{RuleEvaluation, is_empty, make_evaluation}
use stock_master.Metric.{MetricResult, contains}

-- `compare_values(observed_value, threshold, operator)`
unfoldable pub compare_values : Decimal → Decimal → ComparisonOperator → Bool
compare_values v t greater_than = ltb_dec t v
compare_values v t greater_than_or_equal = leb_dec t v
compare_values v t less_than = ltb_dec v t
compare_values v t less_than_or_equal = leb_dec v t

unfoldable pub validate_relationships :
    InvestmentThesis → ThesisCondition → MetricResult → Result (Unit {0})
validate_relationships thesis condition metric = do
  raise_if (not (condition.thesis_id == thesis.id))
      (rule_evaluation "condition is not associated with thesis")
  raise_if (not (condition.user_id == thesis.user_id))
      (rule_evaluation "condition is not associated with user")
  raise_if (not (same_metric condition.metric metric.metric))
      (rule_evaluation "condition is not associated with metric")
  raise_if (is_empty metric.observation_ids)
      (rule_evaluation "metric result has no observation IDs")

-- the key `(evaluation.data_as_of, evaluation.evaluated_at)`
unfoldable pub earlier : RuleEvaluation → RuleEvaluation → Bool
earlier a b =
    ltb a.data_as_of b.data_as_of
    || ((a.data_as_of == b.data_as_of) && leb a.evaluated_at.instant b.evaluated_at.instant)

-- the tests of the loop for one evaluation; `seen` is `seen_dates`
unfoldable pub check_prior :
    InvestmentThesis → ThesisCondition → ℕ → List ℕ → RuleEvaluation → Result (Unit {0})
check_prior thesis condition current seen e = do
  raise_if (not (e.user_id == condition.user_id))
      (rule_evaluation "evaluation is not associated with user")
  raise_if (not (e.thesis_id == thesis.id))
      (rule_evaluation "evaluation is not associated with thesis")
  raise_if (not (e.condition_id == condition.id))
      (rule_evaluation "evaluation is not associated with condition")
  raise_if (not (e.rule_version == condition.version))
      (rule_evaluation "evaluation is not associated with condition version")
  raise_if (leb current e.data_as_of)
      (rule_evaluation "prior evaluation must precede the current data date")
  raise_if (contains e.data_as_of seen)
      (rule_evaluation "Prior evaluations must contain at most one result per date")

unfoldable pub check_history :
    InvestmentThesis → ThesisCondition → ℕ → List ℕ → List RuleEvaluation → Result (Unit {0})
check_history thesis condition current seen [] = ok tt
check_history thesis condition current seen (e ∷ rest) =
    check_prior thesis condition current seen e
    >> check_history thesis condition current (e.data_as_of ∷ seen) rest

unfoldable pub validate_and_order_history :
    InvestmentThesis → ThesisCondition → ℕ → List RuleEvaluation → Result (List RuleEvaluation)
validate_and_order_history thesis condition current prior =
    let ordered = sorted earlier prior in
    check_history thesis condition current [] ordered >> ok ordered

-- what the last evaluation of the ordered history makes of a match
unfoldable pub continue_streak : ThesisCondition → Option RuleEvaluation → ℕ
continue_streak condition none = 1
continue_streak condition (some previous) =
    if previous.consecutive_periods_matched == 0
    then 1
    else min (previous.consecutive_periods_matched + 1) condition.consecutive_periods

-- `_calculate_consecutive_periods`
unfoldable pub consecutive_periods :
    InvestmentThesis → ThesisCondition → MetricResult → Bool → List RuleEvaluation → Result ℕ
consecutive_periods thesis condition metric matches prior =
    if not matches then ok 0 else if condition.consecutive_periods == 1 then ok 1 else (do
      ordered ← validate_and_order_history thesis condition metric.data_as_of prior
      ok (continue_streak condition (last? ordered)))

-- the evaluation that the arguments and the count of the period make up
unfoldable pub candidate :
    ℕ → DateTime → InvestmentThesis → ThesisCondition → MetricResult → ℕ → RuleEvaluation
candidate id now thesis condition metric periods = record {
  id = id;
  user_id = condition.user_id;
  thesis_id = condition.thesis_id;
  condition_id = condition.id;
  symbol = thesis.symbol;
  metric = condition.metric;
  operator = condition.operator;
  observed_value = metric.value;
  threshold = condition.threshold;
  matched = leb condition.consecutive_periods periods;
  consecutive_periods_required = condition.consecutive_periods;
  consecutive_periods_matched = periods;
  rule_version = condition.version;
  data_as_of = metric.data_as_of;
  evaluated_at = now;
  observation_ids = metric.observation_ids;
}

-- `current_period_matches`
unfoldable pub period_matches : ThesisCondition → MetricResult → Bool
period_matches condition metric = compare_values metric.value condition.threshold condition.operator

unfoldable pub evaluate_condition :
    ℕ
    → DateTime
    → InvestmentThesis
    → ThesisCondition
    → MetricResult
    → List RuleEvaluation
    → Result RuleEvaluation
evaluate_condition id now thesis condition metric prior = do
  validate_relationships thesis condition metric
  raise_if (not condition.enabled) (rule_evaluation "condition is disabled")
  periods ← consecutive_periods thesis condition metric (period_matches condition metric) prior
  make_evaluation (candidate id now thesis condition metric periods)
