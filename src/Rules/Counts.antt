-- ===== src/Rules/Counts.antt =====
-- The count of consecutive periods of app/domain/rule_engine.py: its bounds, and the one exception
-- class that the steps of an evaluation raise.
use stock_master.Prelude.{
  ℕ, ◌≤◌, ◌≡◌, inl, inr, String, List, Bool, true, false, Result, ok, err, Error, rule_evaluation,
  ◌>>=◌, >>=-eq-ok, Bool-cases, arith, refl, raise_if, if◌then◌else◌, [], ◌∷◌, ◌==◌, Option, some,
  none, last?,
}
use stock_master.Thesis.{InvestmentThesis, ThesisCondition}
use stock_master.Event.{RuleEvaluation}
use stock_master.Metric.{MetricResult}
use stock_master.Rules.{
  validate_relationships, check_prior, check_history, validate_and_order_history, continue_streak,
  consecutive_periods,
}

-- A call raises nothing but `RuleEvaluationError`.
pub record RaisesOnlyRule {ℓ} {A : Type ℓ} (r : Result A) : Type ℓ where
  pub message : (e : Error) → r ≡ err e → (m : String) × (e ≡ rule_evaluation m)

pub RaisesOnlyRule-raise_if :
    (b : Bool) (m : String) → RaisesOnlyRule (raise_if b (rule_evaluation m))
RaisesOnlyRule-raise_if true m = record { message = λ e h. (m, cc) }
RaisesOnlyRule-raise_if false m = record { message = λ e h. cc }

pub RaisesOnlyRule-ok {ℓ} : {A : Type ℓ} (a : A) → RaisesOnlyRule (ok a)
RaisesOnlyRule-ok a = record { message = λ e h. cc }

pub RaisesOnlyRule-bind {ℓ} :
    {A B : Type ℓ} (r : Result A) (f : A → Result B)
    → RaisesOnlyRule r
    → ((a : A) → r ≡ ok a → RaisesOnlyRule (f a))
    → RaisesOnlyRule (r >>= f)
RaisesOnlyRule-bind (ok a) f h k = k a refl
RaisesOnlyRule-bind (err e) f h k = record { message = λ e' p. h.message e' (cc) }

pub RaisesOnlyRule-if {ℓ} :
    {A : Type ℓ} (b : Bool) (x y : Result A)
    → RaisesOnlyRule x
    → RaisesOnlyRule y
    → RaisesOnlyRule (if b then x else y)
RaisesOnlyRule-if true x y h k = h
RaisesOnlyRule-if false x y h k = k

pub ruleset raise_rules =
    (RaisesOnlyRule-raise_if, RaisesOnlyRule-ok, RaisesOnlyRule-bind, RaisesOnlyRule-if)

module _ (thesis : InvestmentThesis) (condition : ThesisCondition) where
  pub validate_relationships-RaisesOnlyRule :
      (metric : MetricResult) → RaisesOnlyRule (validate_relationships thesis condition metric)
  unfolding validate_relationships
  validate_relationships-RaisesOnlyRule metric = search raise_rules depth 12

  check_prior-RaisesOnlyRule :
      (current : ℕ) (seen : List ℕ) (e : RuleEvaluation)
      → RaisesOnlyRule (check_prior thesis condition current seen e)
  unfolding check_prior
  check_prior-RaisesOnlyRule current seen e = search raise_rules depth 16

  check_history-RaisesOnlyRule :
      (current : ℕ) (seen : List ℕ) (es : List RuleEvaluation)
      → RaisesOnlyRule (check_history thesis condition current seen es)
  unfolding check_history
  check_history-RaisesOnlyRule current seen [] = RaisesOnlyRule-ok tt
  check_history-RaisesOnlyRule current seen (e ∷ es) =
      RaisesOnlyRule-bind _ _ (check_prior-RaisesOnlyRule current seen e)
        (λ _ _. check_history-RaisesOnlyRule current (e.data_as_of ∷ seen) es)

  order_history-RaisesOnlyRule :
      (current : ℕ) (prior : List RuleEvaluation)
      → RaisesOnlyRule (validate_and_order_history thesis condition current prior)
  unfolding validate_and_order_history
  order_history-RaisesOnlyRule current prior = search (raise_rules, check_history-RaisesOnlyRule)

  pub consecutive_periods-RaisesOnlyRule :
      (metric : MetricResult) (matches : Bool) (prior : List RuleEvaluation)
      → RaisesOnlyRule (consecutive_periods thesis condition metric matches prior)
  unfolding consecutive_periods
  consecutive_periods-RaisesOnlyRule metric matches prior =
      search (raise_rules, order_history-RaisesOnlyRule) depth 8

  -- The count of a period: 0 without a match, and else at least 1 and at most the requirement.
  abbrev pub CountsMatch : Bool → ℕ → Type 0
  CountsMatch true n = (1 ≤ n) × (n ≤ condition.consecutive_periods)
  CountsMatch false n = n ≡ 0

  continue_streak_bounds :
      (previous : Option RuleEvaluation)
      → 1 ≤ condition.consecutive_periods
      → CountsMatch true (continue_streak condition previous)
  unfolding continue_streak
  continue_streak_bounds none h = omega arith
  continue_streak_bounds (some e) h = ground arith

  pub consecutive_periods-CountsMatch :
      (metric : MetricResult) (matches : Bool) (prior : List RuleEvaluation) {n : ℕ}
      → 1 ≤ condition.consecutive_periods
      → consecutive_periods thesis condition metric matches prior ≡ ok n
      → CountsMatch matches n
  unfolding consecutive_periods
  consecutive_periods-CountsMatch metric false prior pos h = ground arith
  consecutive_periods-CountsMatch metric true prior {n} pos h =
      elim (Bool-cases (condition.consecutive_periods == 1)) [
        | inl one ↦ ground arith
        | inr more ↦
            let (ordered, _, e) =
              >>=-eq-ok (validate_and_order_history thesis condition metric.data_as_of prior)
                (λ o. ok (continue_streak condition (last? o))) (rw more at h) in
            let same : continue_streak condition (last? ordered) ≡ n = cc in
            rw (← same) (continue_streak_bounds (last? ordered) pos)
      ]
