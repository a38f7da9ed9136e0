-- ===== src/Monitoring/Tests.antt =====
-- The theorems on app/services/thesis_monitoring_service.py, at a run that finds that a price fell and
-- invalidates its thesis.
use stock_master.Prelude.{
  ℕ, ◌≡◌, refl, arith, List, [], none, find?, length, Each, ◌∷◌, some, ok, err, codes, Bool, true,
  false, Result, text_eq,
}
use stock_master.Decimal.{of_ℕ}
use stock_master.Thesis.{InvestmentThesis, ThesisCondition, same_status, invalidated}
use stock_master.Event.{is_some}
use stock_master.MarketData.{DailyBar, raw}
use stock_master.Store.{Session}
use stock_master.Store.Theses.Timeline.{empty_session}
use stock_master.Monitoring.{
  ThesisMonitoringResult, evaluate_thesis, evaluation_count, event_count, matched_count,
}
use stock_master.Monitoring.Reports.{IsReportOf}
use stock_master.Monitoring.Runs.{evaluate_thesis-reports}
use stock_master.Monitoring.Invalidation.{falsifies, evaluate_thesis-invalidation}
use stock_master.Prelude.Order.{sorted}
use stock_master.Prelude.Reading.{read_all}
use stock_master.Decimal.{ltb_dec, leb_dec, eqb_dec}
use stock_master.Decimal.Arithmetic.{sub, mul, div}
use stock_master.Text.{is_space, lower, is_symbol, is_event_type, normalize_symbol}
use stock_master.Text.Render.{
  digit, digits_from, int_text, zeros, placed, notation, decimal_text, hex_digits, uuid_text,
}
use stock_master.Thesis.{thesis_fits, make_thesis, condition_fits, make_condition}
use stock_master.Event.{
  evaluation_fits, make_evaluation, event_fits, make_event, evidence_fits, make_evidence,
}
use stock_master.MarketData.{is_currency, bar_fits, make_bar}
use stock_master.Metric.{make_metric_result}
use stock_master.Metric.Series.{
  one_series, same_bar_series, bar_before, prepare_daily_bars, percentage_change,
  require_observation_id,
}
use stock_master.Metric.Calculate.{
  last_two, price_change, price_change_of_last, calculate_daily_price_change_percent,
}
use stock_master.Metric.Registry.{
  validate_result, calculate_daily, metric_definitions, registered, register_all, some_missing,
  build_registry, get_metric_definition,
}
use stock_master.Rules.{
  compare_values, validate_relationships, consecutive_periods, candidate, period_matches,
  evaluate_condition,
}
use stock_master.Store.{uuid4, now}
use stock_master.Store.Theses.{
  owns_thesis, read_thesis, get_thesis, require_thesis, allowed, has_status,
  validate_status_transition, updated_row, hit_by, changes_status, check_transition, too_long,
  event_exists, record_change, log_change, update_thesis,
}
use stock_master.Store.Conditions.{
  owns_condition, read_condition, get_condition, require_condition, is_listed, condition_rows,
  read_conditions, list_conditions, list_enabled_conditions,
}
use stock_master.Store.Evaluations.{
  stored_evaluation, insert_new, insert_evaluation, read_evaluation, save_rule_evaluation,
}
use stock_master.Store.Events.{
  owns_evaluation, get_rule_evaluation, stored_value, stored_evidence, some_taken, insert_evidence,
  insert_event, put_event, save_event_with_evidence,
}
use stock_master.Store.Events.Checks.{validate_event_relationship, validate_evidence}
use stock_master.Store.Stock.{of_series, latest_bar_first, recent_rows, get_recent_daily_bars}
use stock_master.Store.Stock.Rows.{normalize_stock_symbol, normalize_source, read_bars}
use stock_master.Monitoring.{
  read_daily_bars, load_daily_bars, load_fundamentals, load_prior_evaluations, build_evidence,
  report_event, matched_result, judge, monitor_condition, monitor_conditions, invalidates,
  invalidation_update, conclude, run_conditions,
}
use stock_master.Monitoring.Build.{
  metric_text, operator_text, kind_text, monitoring_source, is_monitorable,
  require_monitorable_thesis, requirements, maximum, maximum_required_observations, calculate_by,
  calculate_metric, event_summary, build_event, build_item,
}
use stock_master.Samples.{a_world, day, aapl, falls, bar_on}

-- "the daily change is at most -5.0 per cent", for one day
abbrev falls_once : ThesisCondition
falls_once = record falls { consecutive_periods = 1 }

abbrev row_on : ℕ → ℕ → ℕ → DailyBar
row_on id n price = record (bar_on n) {
  observation_id = some id;
  source = codes "test";
  close = of_ℕ price;
}

abbrev start : Session
start = record (empty_session a_world 0 0) {
  theses = aapl ∷ [];
  conditions = falls_once ∷ [];
  daily_bars = row_on 1 201 20 ∷ row_on 2 202 10 ∷ [];
}

abbrev no_result : ThesisMonitoringResult
no_result = record {
  thesis = aapl;
  source = [];
  started_at = day 0;
  completed_at = day 0;
  conditions = [];
}

abbrev result_of : Result ThesisMonitoringResult → ThesisMonitoringResult
result_of (ok r) = r
result_of (err e) = no_result

abbrev result : ThesisMonitoringResult
result = result_of (evaluate_thesis 24 7 11 (codes "Test") raw start).0

abbrev after : Session
after = (evaluate_thesis 24 7 11 (codes "Test") raw start).1

abbrev is_ok : Result ThesisMonitoringResult → Bool
is_ok (ok r) = true
is_ok (err e) = false

returns : is_ok (evaluate_thesis 24 7 11 (codes "Test") raw start).0 ≡ true
unfolding evaluate_thesis sorted read_all ltb_dec leb_dec eqb_dec sub mul div is_space lower
    is_symbol is_event_type normalize_symbol digit digits_from int_text zeros placed notation
    decimal_text hex_digits uuid_text thesis_fits make_thesis condition_fits make_condition
    evaluation_fits make_evaluation event_fits make_event evidence_fits make_evidence is_currency
    bar_fits make_bar make_metric_result one_series same_bar_series bar_before prepare_daily_bars
    percentage_change require_observation_id last_two price_change price_change_of_last
    calculate_daily_price_change_percent validate_result calculate_daily metric_definitions
    registered register_all some_missing build_registry get_metric_definition compare_values
    validate_relationships consecutive_periods candidate period_matches evaluate_condition uuid4 now
    owns_thesis read_thesis get_thesis require_thesis allowed has_status validate_status_transition
    updated_row hit_by changes_status check_transition too_long event_exists record_change
    log_change update_thesis owns_condition read_condition get_condition require_condition is_listed
    condition_rows read_conditions list_conditions list_enabled_conditions stored_evaluation
    insert_new insert_evaluation read_evaluation save_rule_evaluation owns_evaluation
    get_rule_evaluation stored_value stored_evidence some_taken insert_evidence insert_event
    put_event save_event_with_evidence validate_event_relationship validate_evidence of_series
    latest_bar_first recent_rows get_recent_daily_bars normalize_stock_symbol normalize_source
    read_bars read_daily_bars load_daily_bars load_fundamentals load_prior_evaluations
    build_evidence report_event matched_result judge monitor_condition monitor_conditions
    invalidates invalidation_update conclude run_conditions metric_text operator_text kind_text
    monitoring_source is_monitorable require_monitorable_thesis requirements maximum
    maximum_required_observations calculate_by calculate_metric event_summary build_event build_item
    text_eq
returns = refl

run-eq_ok :
    (p : Result ThesisMonitoringResult × Session) → is_ok p.0 ≡ true → p ≡ (ok (result_of p.0), p.1)
run-eq_ok (ok r, s) h = refl
run-eq_ok (err e, s) h = absurd (ground arith)

returned : evaluate_thesis 24 7 11 (codes "Test") raw start ≡ (ok result, after)
returned = run-eq_ok (evaluate_thesis 24 7 11 (codes "Test") raw start) returns

evaluate_thesis-reports_example :
    (conditions : List ThesisCondition) × (read_conditions
        (condition_rows 7 11 (some true) start.conditions)
      ≡ ok conditions)
    × Each IsReportOf conditions result.conditions
    × (evaluation_count result ≡ length conditions)
    × (event_count result ≡ matched_count result)
evaluate_thesis-reports_example =
    evaluate_thesis-reports 24 7 11 (codes "Test") raw start after result returned

evaluate_thesis-invalidation_example :
    (thesis : InvestmentThesis) × (read_thesis (find? (owns_thesis 7 11) start.theses)
      ≡ ok (some thesis))
    × (is_monitorable thesis.status ≡ true)
    × (find? falsifies result.conditions ≡ none → result.thesis ≡ thesis)
    × (same_status result.thesis.status invalidated ≡ is_some (find? falsifies result.conditions))
evaluate_thesis-invalidation_example =
    evaluate_thesis-invalidation 24 7 11 (codes "Test") raw start after result returned
