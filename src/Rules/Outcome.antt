-- ===== src/Rules/Outcome.antt =====
-- What `evaluate_condition` of app/domain/rule_engine.py returns, and how it can fail.
use stock_master.Prelude.{
  String, Result, err, ℕ, ◌≤◌, ◌≡◌, List, Bool, true, false, ok, not, >>=-eq-ok, arith, refl, ◌==◌,
  raise_if, rule_evaluation,
}
use stock_master.Thesis.{DateTime, InvestmentThesis, ThesisCondition, thesis_fits, condition_fits}
use stock_master.Thesis.Laws.{condition_fits-periods}
use stock_master.Event.Laws.{make_evaluation_of_fits}
use stock_master.Event.{RuleEvaluation, is_empty, evaluation_fits, make_evaluation}
use stock_master.Metric.{MetricResult}
use stock_master.Rules.{
  validate_relationships, consecutive_periods, candidate, period_matches, evaluate_condition,
}
use stock_master.Rules.Counts.{
  RaisesOnlyRule, RaisesOnlyRule-ok, RaisesOnlyRule-bind, RaisesOnlyRule-raise_if, CountsMatch,
  validate_relationships-RaisesOnlyRule, consecutive_periods-RaisesOnlyRule,
  consecutive_periods-CountsMatch,
}

pub validate_relationships-ids :
    (thesis : InvestmentThesis) (condition : ThesisCondition) (metric : MetricResult)
    → validate_relationships thesis condition metric ≡ ok tt
    → is_empty metric.observation_ids ≡ false
unfolding validate_relationships
validate_relationships-ids thesis condition metric h = ground arith

-- The evaluation names its condition, the version of its rule, and the data that it judged.
pub record Carries (condition : ThesisCondition) (metric : MetricResult) (f : RuleEvaluation)
    : Type 0 where
  pub user : f.user_id ≡ condition.user_id
  pub thesis : f.thesis_id ≡ condition.thesis_id
  pub condition_id : f.condition_id ≡ condition.id
  pub version : f.rule_version ≡ condition.version
  pub threshold : f.threshold ≡ condition.threshold
  pub required : f.consecutive_periods_required ≡ condition.consecutive_periods
  pub value : f.observed_value ≡ metric.value
  pub date : f.data_as_of ≡ metric.data_as_of
  pub observations : f.observation_ids ≡ metric.observation_ids

pub validate_relationships-thesis :
    (thesis : InvestmentThesis) (condition : ThesisCondition) (metric : MetricResult)
    → validate_relationships thesis condition metric ≡ ok tt
    → condition.thesis_id ≡ thesis.id
unfolding validate_relationships
validate_relationships-thesis thesis condition metric h = ground arith

module _ (thesis : InvestmentThesis) (condition : ThesisCondition) (metric : MetricResult) where
  abbrev pub Returned : RuleEvaluation → Type 0
  Returned f =
      (evaluation_fits f ≡ true)
      × Carries condition metric f
      × CountsMatch thesis condition (period_matches condition metric) f.consecutive_periods_matched
      × (f.matched ≡ (f.consecutive_periods_matched == condition.consecutive_periods))

  -- An evaluation as it should be, or `RuleEvaluationError`.
  abbrev pub Sound : Result RuleEvaluation → Type 0
  Sound (ok f) = Returned f
  Sound (err e) = (m : String) × (e ≡ rule_evaluation m)

  Sound-of :
      (r : Result RuleEvaluation)
      → RaisesOnlyRule r
      → ((f : RuleEvaluation) → r ≡ ok f → Returned f)
      → Sound r
  Sound-of (ok f) h k = k f refl
  Sound-of (err e) h k = h.message e refl

module _ (id : ℕ) (now : DateTime) (thesis : InvestmentThesis) (condition : ThesisCondition)
    (metric : MetricResult) where
  candidate_fits :
      (n : ℕ)
      → thesis_fits thesis ≡ true
      → condition_fits condition ≡ true
      → is_empty metric.observation_ids ≡ false
      → n ≤ condition.consecutive_periods
      → evaluation_fits (candidate id now thesis condition metric n) ≡ true
  unfolding thesis_fits condition_fits evaluation_fits candidate
  candidate_fits n t c ids le = ground arith

  -- The construction of the evaluation succeeds on valid models.
  make_candidate :
      (n : ℕ)
      → thesis_fits thesis ≡ true
      → condition_fits condition ≡ true
      → is_empty metric.observation_ids ≡ false
      → n ≤ condition.consecutive_periods
      → make_evaluation (candidate id now thesis condition metric n)
        ≡ ok (candidate id now thesis condition metric n)
  make_candidate n t c ids le = make_evaluation_of_fits _ (candidate_fits n t c ids le)

  candidate-Carries :
      (n : ℕ) → Carries condition metric (candidate id now thesis condition metric n)
  unfolding candidate
  candidate-Carries n = record {
    user = refl;
    thesis = refl;
    condition_id = refl;
    version = refl;
    threshold = refl;
    required = refl;
    value = refl;
    date = refl;
    observations = refl;
  }

  candidate-Returned :
      (n : ℕ)
      → thesis_fits thesis ≡ true
      → condition_fits condition ≡ true
      → is_empty metric.observation_ids ≡ false
      → n ≤ condition.consecutive_periods
      → CountsMatch thesis condition (period_matches condition metric) n
      → Returned thesis condition metric (candidate id now thesis condition metric n)
  unfolding candidate
  candidate-Returned n t c ids le counts =
      (candidate_fits n t c ids le, candidate-Carries n, counts, ground arith)

  CountsMatch-le :
      (b : Bool) (n : ℕ) → CountsMatch thesis condition b n → n ≤ condition.consecutive_periods
  CountsMatch-le true n h = h.1
  CountsMatch-le false n h = rw h (omega arith)

  module _ (t : thesis_fits thesis ≡ true) (c : condition_fits condition ≡ true)
      (prior : List RuleEvaluation) where
    count_bound :
        (n : ℕ)
        → consecutive_periods thesis condition metric (period_matches condition metric) prior ≡ ok n
        → n ≤ condition.consecutive_periods
    count_bound n count = CountsMatch-le (period_matches condition metric) n (
        consecutive_periods-CountsMatch thesis condition metric _ prior
          (condition_fits-periods condition c).0 count)

    made-RaisesOnlyRule :
        (n : ℕ)
        → is_empty metric.observation_ids ≡ false
        → n ≤ condition.consecutive_periods
        → RaisesOnlyRule (make_evaluation (candidate id now thesis condition metric n))
    made-RaisesOnlyRule n ids le = rw (make_candidate n t c ids le) (RaisesOnlyRule-ok _)

    -- An enabled, related condition is evaluated to the candidate of its count.
    pub evaluate_condition_of_count :
        (n : ℕ)
        → validate_relationships thesis condition metric ≡ ok tt
        → condition.enabled ≡ true
        → consecutive_periods thesis condition metric (period_matches condition metric) prior ≡ ok n
        → evaluate_condition id now thesis condition metric prior
          ≡ ok (candidate id now thesis condition metric n)
    unfolding evaluate_condition
    evaluate_condition_of_count n related on count =
        simp (related, on, count)
          (make_candidate n t c (validate_relationships-ids thesis condition metric related)
            (count_bound n count))

    -- The successful call, taken apart.
    pub evaluate_condition-eq-ok :
        (f : RuleEvaluation)
        → evaluate_condition id now thesis condition metric prior ≡ ok f
        → (n : ℕ) × (condition.enabled ≡ true)
          × (consecutive_periods thesis condition metric (period_matches condition metric) prior
              ≡ ok n)
          × (is_empty metric.observation_ids ≡ false)
          × (f ≡ candidate id now thesis condition metric n)
    unfolding evaluate_condition
    evaluate_condition-eq-ok f h =
        let (_, related, h₁) = >>=-eq-ok (validate_relationships thesis condition metric) _ h in
        let (_, on, h₂) = >>=-eq-ok (raise_if (not condition.enabled) _) _ h₁ in
        let (n, count, h₃) =
          >>=-eq-ok
            (consecutive_periods thesis condition metric (period_matches condition metric) prior) _
            h₂ in
        let ids = validate_relationships-ids thesis condition metric related in
        let made = make_candidate n t c ids (count_bound n count) in
        (n, ground arith, count, ids, cc)

    -- On a valid thesis and condition an evaluation raises `RuleEvaluationError` or nothing.
    pub evaluate_condition-RaisesOnlyRule :
        RaisesOnlyRule (evaluate_condition id now thesis condition metric prior)
    unfolding evaluate_condition
    evaluate_condition-RaisesOnlyRule =
        RaisesOnlyRule-bind _ _ (validate_relationships-RaisesOnlyRule thesis condition metric)
          λ _ related. RaisesOnlyRule-bind _ _ (RaisesOnlyRule-raise_if _ _) λ _ _.
            RaisesOnlyRule-bind _ _
              (consecutive_periods-RaisesOnlyRule thesis condition metric _ prior)
              λ n count.
                made-RaisesOnlyRule n (validate_relationships-ids thesis condition metric related)
                  (count_bound n count)

    returned :
        (f : RuleEvaluation)
        → evaluate_condition id now thesis condition metric prior ≡ ok f
        → Returned thesis condition metric f
    returned f h =
        let (n, _, count, ids, e) = evaluate_condition-eq-ok f h in
        let le = count_bound n count in
        let counts =
          consecutive_periods-CountsMatch thesis condition metric _ prior
            (condition_fits-periods condition c).0 count in
        rw e (candidate-Returned n t c ids le counts)

    -- For a thesis and a condition that meet their models' constraints, whatever the metric result
    -- and the prior evaluations: a call returns an evaluation or raises `RuleEvaluationError`, and
    -- never fails the validation of the evaluation that it builds. A returned evaluation meets every
    -- constraint of its model and carries the identities, the rule version and the threshold of the
    -- condition and the value, the date and the observations of the metric. Its count of periods is 0
    -- if the value does not match the threshold, and else from 1 to the requirement; it is flagged
    -- as matched exactly when the count equals the requirement.
    pub evaluate_condition-Sound :
        Sound thesis condition metric (evaluate_condition id now thesis condition metric prior)
    evaluate_condition-Sound =
        Sound-of thesis condition metric _ evaluate_condition-RaisesOnlyRule returned
