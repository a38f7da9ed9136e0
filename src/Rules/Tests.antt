-- ===== src/Rules/Tests.antt =====
-- Runs of app/domain/rule_engine.py on the sample condition, and its theorems at concrete inputs.
use mathlib.Core.List.{Permᴰ, Memᴰ}
use stock_master.Prelude.{
  ℕ, ◌≡◌, ◌↔◌, refl, List, [], ◌∷◌, true, not, ◌||◌, ok, none, map, arith, ◌<◌,
}
use stock_master.Decimal.{Decimal, leb_dec, eqb_dec}
use stock_master.Text.{is_symbol, length_within}
use stock_master.Thesis.{
  thesis_fits, condition_fits, less_than_or_equal, greater_than, less_than, greater_than_or_equal,
}
use stock_master.Event.{RuleEvaluation}
use stock_master.Rules.{
  compare_values, candidate, consecutive_periods, evaluate_condition, validate_relationships,
  period_matches,
}
use stock_master.Rules.Compare.{scaled, compare_values_laws}
use stock_master.Prelude.Int.{ℤ, ltb_ℤ}
use stock_master.Rules.History.{IsHistory, IsLatest, IsPrior}
use stock_master.Rules.Outcome.{Sound, evaluate_condition-Sound}
use stock_master.Rules.Consecutive.{
  consecutive_periods_accepts, consecutive_periods-latest, evaluate_condition-perm,
}
use stock_master.Rules.Streak.{
  Period, IsSeries, CountsRuns, evaluate_periods_count_runs, run_lengths,
}
use stock_master.Samples.{day, aapl, falls, fall_of}

aapl_fits : thesis_fits aapl ≡ true
unfolding thesis_fits is_symbol length_within
aapl_fits = refl

falls_fits : condition_fits falls ≡ true
unfolding condition_fits length_within
falls_fits = refl

-- the evaluation of a fall of `n` per cent on a day, with a count of periods
abbrev past : ℕ → ℕ → ℕ → RuleEvaluation
past n d k = candidate d (day d) aapl falls (fall_of n d) k

past-IsPrior : (n d k : ℕ) → d < 203 → IsPrior aapl falls 203 (past n d k)
unfolding candidate
past-IsPrior n d k h = record {
  user = refl;
  thesis_of = refl;
  condition_of = refl;
  version = refl;
  before = h;
}

abbrev two_days : List RuleEvaluation
two_days = past 2 202 0 ∷ past 6 201 1 ∷ []

two_days-IsHistory : IsHistory aapl falls 203 two_days
unfolding candidate
two_days-IsHistory = record {
  owned = (past-IsPrior 2 202 0 (omega arith), (past-IsPrior 6 201 1 (omega arith), tt));
  dates = ((omega arith, tt), (tt, tt));
}

two_days-IsLatest : IsLatest aapl falls 203 (past 2 202 0) two_days
unfolding candidate
two_days-IsLatest = record { member = Memᴰ.head refl; latest = (omega arith, (omega arith, tt)) }

abbrev minus_six : Decimal
minus_six = (fall_of 5 200).value

compare_values_laws_example :
    ((a b e : ℤ) → compare_values (scaled a e) (scaled b e) greater_than ≡ ltb_ℤ b a)
    × (compare_values minus_six falls.threshold less_than_or_equal
        ≡ not (compare_values minus_six falls.threshold greater_than))
    × (compare_values minus_six falls.threshold less_than_or_equal
        ≡ compare_values falls.threshold minus_six greater_than_or_equal)
    × (compare_values minus_six falls.threshold greater_than_or_equal ≡ (
        compare_values minus_six falls.threshold greater_than || eqb_dec falls.threshold minus_six))
    × (compare_values minus_six falls.threshold less_than_or_equal
        ≡ (compare_values minus_six falls.threshold less_than || eqb_dec minus_six falls.threshold))
compare_values_laws_example = compare_values_laws minus_six falls.threshold less_than_or_equal

evaluate_condition-Sound_example :
    Sound aapl falls
      (fall_of 6 203)
      (evaluate_condition 1 (day 203) aapl falls (fall_of 6 203) two_days)
evaluate_condition-Sound_example =
    evaluate_condition-Sound 1 (day 203) aapl falls (fall_of 6 203) aapl_fits falls_fits two_days

consecutive_periods_accepts_example :
    (((n : ℕ) × (consecutive_periods aapl falls (fall_of 6 203) true two_days ≡ ok n))
      ↔ IsHistory aapl falls 203 two_days)
    × (consecutive_periods aapl falls (fall_of 6 203) true [] ≡ ok 1)
consecutive_periods_accepts_example =
    consecutive_periods_accepts aapl falls (fall_of 6 203) (omega arith) two_days

consecutive_periods-latest_example :
    consecutive_periods aapl falls (fall_of 6 203) true two_days ≡ ok 1
unfolding candidate
consecutive_periods-latest_example =
    consecutive_periods-latest aapl falls (fall_of 6 203) (omega arith) two_days (past 2 202 0)
      two_days-IsHistory two_days-IsLatest

evaluate_condition-perm_example :
    evaluate_condition 1 (day 203) aapl falls (fall_of 6 203) two_days
    ≡ evaluate_condition 1 (day 203) aapl falls (fall_of 6 203) (past 6 201 1 ∷ past 2 202 0 ∷ [])
evaluate_condition-perm_example =
    evaluate_condition-perm 1 (day 203) aapl falls (fall_of 6 203) two_days
      (past 6 201 1 ∷ past 2 202 0 ∷ []) (Permᴰ.swap refl refl) two_days-IsHistory

-- falls of 6, 1, 7, 8 and 9 per cent
abbrev week : List Period
week =
    map (λ (f : ℕ × ℕ). record { id = f.1; now = day f.1; metric = fall_of f.0 f.1 })
      ((5, 200) ∷ (0, 201) ∷ (6, 202) ∷ (7, 203) ∷ (8, 204) ∷ [])

week-IsSeries : IsSeries aapl falls none week
unfolding validate_relationships
week-IsSeries = ground arith

evaluate_periods_count_runs_example : CountsRuns aapl falls none 0 week
evaluate_periods_count_runs_example =
    evaluate_periods_count_runs aapl falls aapl_fits falls_fits refl week week-IsSeries

week_runs :
    run_lengths 0 (map (λ (p : Period). period_matches falls p.metric) week)
    ≡ 1 ∷ 0 ∷ 1 ∷ 2 ∷ 3 ∷ []
unfolding run_lengths period_matches compare_values leb_dec
week_runs = refl
