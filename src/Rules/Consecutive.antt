-- ===== src/Rules/Consecutive.antt =====
-- The consecutive-period count of app/domain/rule_engine.py against its history.
use mathlib.Core.List.{Permᴰ}
use stock_master.Prelude.{
  ℕ, ◌+◌, ◌<◌, ◌≡◌, ◌↔◌, List, [], Bool, true, false, ok, >>=-eq-ok, arith, ap, ◌∙◌, some, last?,
  min, ◌==◌, not, if◌then◌else◌,
}
use stock_master.Prelude.Order.{sorted}
use stock_master.Prelude.Order.Distinct.{All-perm, Distinct-perm, sorted_perm_eq}
use stock_master.Thesis.{DateTime, InvestmentThesis, ThesisCondition}
use stock_master.Event.{RuleEvaluation}
use stock_master.Metric.{MetricResult}
use stock_master.Rules.{
  earlier, validate_and_order_history, continue_streak, consecutive_periods, period_matches,
  evaluate_condition,
}
use stock_master.Rules.History.{
  IsHistory, IsPrior, IsLatest, date_of, earlier-IsOrder, earlier_strict,
  validate_and_order_history_accepts, validate_and_order_history_refuses, last?-sorted,
}

module _ (thesis : InvestmentThesis) (condition : ThesisCondition) (metric : MetricResult) where
  consecutive_periods-eq :
      (matches : Bool) (prior : List RuleEvaluation)
      → IsHistory thesis condition metric.data_as_of prior
      → consecutive_periods thesis condition metric matches prior
        ≡ ok (
            if not matches
            then 0
            else if condition.consecutive_periods == 1
            then 1
            else continue_streak condition (last? (sorted earlier prior)))
  unfolding consecutive_periods
  consecutive_periods-eq matches prior h =
      rw (validate_and_order_history_accepts thesis condition metric.data_as_of prior h)
        (ground arith)

  module _ (many : 1 < condition.consecutive_periods) where
    several : (condition.consecutive_periods == 1) ≡ false
    several = ground arith

    consecutive_periods-IsHistory :
        (prior : List RuleEvaluation) (n : ℕ)
        → consecutive_periods thesis condition metric true prior ≡ ok n
        → IsHistory thesis condition metric.data_as_of prior
    unfolding consecutive_periods
    consecutive_periods-IsHistory prior n h =
        let (ordered, e, _) =
          >>=-eq-ok (validate_and_order_history thesis condition metric.data_as_of prior)
            (λ o. ok (continue_streak condition (last? o))) (rw several at h) in
        validate_and_order_history_refuses thesis condition metric.data_as_of prior ordered e

    continue_streak-some :
        (p : RuleEvaluation)
        → continue_streak condition (some p)
          ≡ min (p.consecutive_periods_matched + 1) condition.consecutive_periods
    unfolding continue_streak
    continue_streak-some p = ground arith

    consecutive_periods-nil : consecutive_periods thesis condition metric true [] ≡ ok 1
    unfolding sorted continue_streak
    consecutive_periods-nil =
        consecutive_periods-eq true [] (record { owned = tt; dates = tt }) ∙ rw several

    -- A matching period of a condition that asks for several: a count is returned exactly when the
    -- prior evaluations are evaluations of this user, thesis, condition and rule version, one for each
    -- date, before the date of the metric; with no prior evaluation the count is 1.
    pub consecutive_periods_accepts :
        (prior : List RuleEvaluation)
        → (((n : ℕ) × (consecutive_periods thesis condition metric true prior ≡ ok n))
            ↔ IsHistory thesis condition metric.data_as_of prior)
          × (consecutive_periods thesis condition metric true [] ≡ ok 1)
    consecutive_periods_accepts prior = (
      (
        λ (n, h). consecutive_periods-IsHistory prior n h,
        λ h. (_, consecutive_periods-eq true prior h),
      ),
      consecutive_periods-nil,
    )

    -- A matching period of a condition that asks for several, over an accepted history: the count is
    -- one more than that of the evaluation with the latest date, up to the requirement, in whatever
    -- order the evaluations are given.
    pub consecutive_periods-latest :
        (prior : List RuleEvaluation) (p : RuleEvaluation)
        → IsHistory thesis condition metric.data_as_of prior
        → IsLatest thesis condition metric.data_as_of p prior
        → consecutive_periods thesis condition metric true prior
          ≡ ok (min (p.consecutive_periods_matched + 1) condition.consecutive_periods)
    consecutive_periods-latest prior p h l =
        consecutive_periods-eq true prior h
        ∙ rw (several, last?-sorted thesis condition metric.data_as_of p prior h l)
            (ap ok (continue_streak-some p))

-- Whatever the order in which the prior evaluations are given, a history that the evaluation accepts
-- leads to one and the same outcome.
pub evaluate_condition-perm :
    (id : ℕ) (now : DateTime) (thesis : InvestmentThesis) (condition : ThesisCondition)
    (metric : MetricResult) (prior prior' : List RuleEvaluation)
    → Permᴰ prior prior'
    → IsHistory thesis condition metric.data_as_of prior
    → evaluate_condition id now thesis condition metric prior
      ≡ evaluate_condition id now thesis condition metric prior'
unfolding evaluate_condition
evaluate_condition-perm id now thesis condition metric prior prior' p h =
    let h' : IsHistory thesis condition metric.data_as_of prior' = record {
      owned = All-perm (IsPrior thesis condition metric.data_as_of) p h.owned;
      dates = Distinct-perm date_of p h.dates;
    } in
    let same = sorted_perm_eq date_of earlier-IsOrder earlier_strict p h.dates in
    rw (
      consecutive_periods-eq thesis condition metric (period_matches condition metric) prior h,
      consecutive_periods-eq thesis condition metric (period_matches condition metric) prior' h',
      same,
    )
