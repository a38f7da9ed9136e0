-- ===== src/Store/Evaluations/Tests.antt =====
-- The theorems on the evaluations of app/database/thesis_repositories.py, at a session with the sample
-- condition that evaluates three days, the second of them twice.
use stock_master.Prelude.{ℕ, ◌≡◌, ◌≤◌, refl, true, [], ◌∷◌, ok, length, arith}
use stock_master.Thesis.{condition_fits, make_condition}
use stock_master.Text.{is_symbol, length_within, normalize_symbol, is_space, strip}
use stock_master.Event.{RuleEvaluation, evaluation_fits, make_evaluation}
use stock_master.Rules.{candidate, consecutive_periods}
use stock_master.Rules.History.{IsHistory}
use stock_master.Prelude.Reading.{read_all}
use stock_master.Prelude.Order.{sorted, insert_sorted}
use stock_master.Store.{Session}
use stock_master.Store.Conditions.{require_condition, get_condition, read_condition, owns_condition}
use stock_master.Store.Evaluations.{
  same_period, stored_evaluation, insert_new, insert_evaluation, save_rule_evaluation,
  list_prior_evaluations, is_prior, newest_first, prior_rows, read_evaluations,
}
use stock_master.Store.Evaluations.Periods.{UniquePeriods, save_rule_evaluation-UniquePeriods}
use stock_master.Store.Evaluations.Again.{save_rule_evaluation-again}
use stock_master.Store.Evaluations.Prior.{query_of, list_prior_evaluations-IsHistory}
use stock_master.Store.Evaluations.OnePrior.{one_prior_suffices}
use stock_master.Store.Theses.Timeline.{empty_session}
use stock_master.Samples.{a_world, day, aapl, falls, fall_of}

abbrev start : Session
start = record (empty_session a_world 0 0) { theses = aapl ∷ []; conditions = falls ∷ [] }

-- the evaluation of a fall of `n` per cent on a day
abbrev fall_on : ℕ → ℕ → ℕ → RuleEvaluation
fall_on id n d = candidate id (day d) aapl falls (fall_of n d) 1

abbrev second : Session
second = (save_rule_evaluation (fall_on 1 6 201) start).1

abbrev third : Session
third = (save_rule_evaluation (fall_on 2 7 202) second).1

saved : save_rule_evaluation (fall_on 1 6 201) start ≡ (ok (fall_on 1 6 201), second)
unfolding save_rule_evaluation require_condition get_condition read_condition owns_condition
    make_condition condition_fits length_within insert_evaluation stored_evaluation insert_new
    same_period is_space candidate strip
saved = refl

save_rule_evaluation-UniquePeriods_example : UniquePeriods second.evaluations
save_rule_evaluation-UniquePeriods_example =
    save_rule_evaluation-UniquePeriods (fall_on 1 6 201) start tt

save_rule_evaluation-again_example : (save_rule_evaluation (fall_on 9 8 201) second).1 ≡ second
unfolding same_period candidate
save_rule_evaluation-again_example =
    save_rule_evaluation-again (fall_on 1 6 201) (fall_on 9 8 201) (fall_on 1 6 201) start second
      saved refl

third-UniquePeriods : UniquePeriods third.evaluations
third-UniquePeriods =
    save_rule_evaluation-UniquePeriods (fall_on 2 7 202) second
      save_rule_evaluation-UniquePeriods_example

-- both days, from the earlier to the later
listed :
    list_prior_evaluations (query_of aapl falls 203) 12 third
    ≡ (ok (fall_on 1 6 201 ∷ fall_on 2 7 202 ∷ []), third)
unfolding list_prior_evaluations prior_rows is_prior newest_first read_evaluations read_all
    make_evaluation evaluation_fits is_symbol normalize_symbol candidate sorted insert_sorted
    save_rule_evaluation require_condition get_condition read_condition owns_condition
    make_condition condition_fits length_within insert_evaluation stored_evaluation insert_new
    same_period is_space
listed = refl

list_prior_evaluations-IsHistory_example :
    IsHistory aapl falls 203 (fall_on 1 6 201 ∷ fall_on 2 7 202 ∷ [])
    × (length (fall_on 1 6 201 ∷ fall_on 2 7 202 ∷ []) ≤ 12)
    × (third ≡ third)
list_prior_evaluations-IsHistory_example =
    list_prior_evaluations-IsHistory aapl falls 203 12 third third
      (fall_on 1 6 201 ∷ fall_on 2 7 202 ∷ []) third-UniquePeriods listed

listed_one :
    list_prior_evaluations (query_of aapl falls 203) 1 third ≡ (ok (fall_on 2 7 202 ∷ []), third)
unfolding list_prior_evaluations prior_rows is_prior newest_first read_evaluations read_all
    make_evaluation evaluation_fits is_symbol normalize_symbol candidate sorted insert_sorted
    save_rule_evaluation require_condition get_condition read_condition owns_condition
    make_condition condition_fits length_within insert_evaluation stored_evaluation insert_new
    same_period is_space
listed_one = refl

one_prior_suffices_example :
    consecutive_periods aapl falls (fall_of 8 203) true (fall_on 2 7 202 ∷ [])
    ≡ consecutive_periods aapl falls (fall_of 8 203) true (fall_on 1 6 201 ∷ fall_on 2 7 202 ∷ [])
one_prior_suffices_example =
    one_prior_suffices aapl falls (fall_of 8 203) (omega arith) 11 third third third
      (fall_on 2 7 202 ∷ []) (fall_on 1 6 201 ∷ fall_on 2 7 202 ∷ []) third-UniquePeriods listed_one
      listed
