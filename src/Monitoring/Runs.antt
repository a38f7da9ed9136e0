-- ===== src/Monitoring/Runs.antt =====
-- app/services/thesis_monitoring_service.py: what a whole run returns.
use stock_master.Prelude.{
  ℕ, ◌+◌, ◌≡◌, sym, ap, ◌∙◌, subst, Text, List, true, some, ok, find?, Each, Each-length, length,
  arith,
}
use stock_master.Prelude.Exec.{bind-eq-ok, run-eq, lift}
use stock_master.Thesis.{InvestmentThesis, ThesisCondition}
use stock_master.MarketData.{PriceAdjustment}
use stock_master.Store.{Session, now}
use stock_master.Store.Theses.{read_thesis, get_thesis, require_thesis, owns_thesis}
use stock_master.Store.Theses.Lifecycle.{require_thesis-found}
use stock_master.Store.Conditions.{
  condition_rows, read_conditions, list_conditions, list_enabled_conditions,
}
use stock_master.Monitoring.{
  ConditionMonitoringResult, ThesisMonitoringResult, evaluation_count, matched_count, event_count,
  load_daily_bars, load_fundamentals, monitor_conditions, invalidates, conclude, run_conditions,
  evaluate_thesis,
}
use stock_master.Monitoring.Build.{monitoring_source, is_monitorable, require_monitorable_thesis}
use stock_master.Monitoring.Reports.{IsReportOf, monitor_conditions-Each, Each-counts}

require_thesis-read :
    (user_id thesis_id : ℕ) (s : Session) (t : InvestmentThesis)
    → (require_thesis user_id thesis_id s).0 ≡ ok t
    → read_thesis (find? (owns_thesis user_id thesis_id) s.theses) ≡ ok (some t)
unfolding require_thesis get_thesis
require_thesis-read user_id thesis_id s t h =
    let (found, read, k) =
      bind-eq-ok (get_thesis user_id thesis_id) _ s
        (run-eq (require_thesis user_id thesis_id) s h) in
    read ∙ ground (arith, k)

list_enabled_conditions-ok :
    (user_id thesis_id : ℕ) (s s' : Session) (cs : List ThesisCondition)
    → list_enabled_conditions user_id thesis_id s ≡ (ok cs, s')
    → (read_conditions (condition_rows user_id thesis_id (some true) s.conditions) ≡ ok cs)
      × (s' ≡ s)
unfolding list_enabled_conditions list_conditions
list_enabled_conditions-ok user_id thesis_id s s' cs h =
    let (t, found, k) = bind-eq-ok (require_thesis user_id thesis_id) _ s h in
    let (_, _, _, _, same) = require_thesis-found user_id thesis_id s t found in
    (
      sym (
            ap (λ z. read_conditions (condition_rows user_id thesis_id (some true) z.conditions))
              same)
          ∙ ap (λ p. p.0) k,
      sym (ap (λ p. p.1) k) ∙ same,
    )

module _ (user_id thesis_id : ℕ) (s : Session) (result : ThesisMonitoringResult) where
  -- What a run that returned went through.
  pub record Ran : Type 0 where
    pub thesis : InvestmentThesis
    pub conditions : List ThesisCondition
    pub found : read_thesis (find? (owns_thesis user_id thesis_id) s.theses) ≡ ok (some thesis)
    pub monitorable : is_monitorable thesis.status ≡ true
    pub listed :
        read_conditions (condition_rows user_id thesis_id (some true) s.conditions) ≡ ok conditions
    pub reports : Each IsReportOf conditions result.conditions
    pub before : Session
    pub after : Session
    pub concluded :
        conclude thesis user_id (find? invalidates result.conditions) before
        ≡ (ok result.thesis, after)

monitorable-of :
    (thesis : InvestmentThesis)
    → require_monitorable_thesis thesis ≡ ok tt
    → is_monitorable thesis.status ≡ true
unfolding require_monitorable_thesis
monitorable-of thesis h = ground arith

run_conditions-ok :
    (limit user_id : ℕ) (thesis : InvestmentThesis) (source : Text) (adjustment : PriceAdjustment)
    (conditions : List ThesisCondition) (s s' : Session)
    (o : InvestmentThesis × List ConditionMonitoringResult)
    → run_conditions limit user_id thesis source adjustment conditions s ≡ (ok o, s')
    → Each IsReportOf conditions o.1
      × ((z : Session) × (conclude thesis user_id (find? invalidates o.1) z ≡ (ok o.0, s')))
unfolding run_conditions
run_conditions-ok limit user_id thesis source adjustment conditions s s' o h =
    let (bars, _, k1) = bind-eq-ok (load_daily_bars thesis conditions source adjustment) _ s h in
    let s1 = (load_daily_bars thesis conditions source adjustment s).1 in
    let (snapshots, _, k2) =
      bind-eq-ok (load_fundamentals limit thesis conditions source) _ s1 k1 in
    let s2 = (load_fundamentals limit thesis conditions source s1).1 in
    let loop = monitor_conditions thesis source bars snapshots conditions in
    let (results, looped, k3) = bind-eq-ok loop _ s2 k2 in
    let s3 = (loop s2).1 in
    let last = conclude thesis user_id (find? invalidates results) in
    let (final, ended, k4) = bind-eq-ok last _ s3 k3 in
    let answer : (final, results) ≡ o = ground (arith, k4) in
    let state : (last s3).1 ≡ s' = ap (λ p. p.1) k4 in
    let each =
      monitor_conditions-Each thesis source bars snapshots conditions s2 s3 results
        (run-eq loop s2 looped) in
    (
      subst (λ p. Each IsReportOf conditions p.1) answer each,
      (
        s3,
        subst (λ p. conclude thesis user_id (find? invalidates p.1) s3 ≡ (ok p.0, s')) answer
            (subst (λ z. last s3 ≡ (ok final, z)) state (run-eq last s3 ended)),
      ),
    )

conclude-move :
    (thesis : InvestmentThesis) (user_id : ℕ) (z w : Session)
    {rs ys : List ConditionMonitoringResult} {t u : InvestmentThesis}
    → rs ≡ ys
    → t ≡ u
    → conclude thesis user_id (find? invalidates rs) z ≡ (ok t, w)
    → conclude thesis user_id (find? invalidates ys) z ≡ (ok u, w)
conclude-move thesis user_id z w p q h = rw (← p, ← q) h

pub evaluate_thesis-Ran :
    (limit user_id thesis_id : ℕ) (source : Text) (adjustment : PriceAdjustment) (s s' : Session)
    (result : ThesisMonitoringResult)
    → evaluate_thesis limit user_id thesis_id source adjustment s ≡ (ok result, s')
    → Ran user_id thesis_id s result
unfolding evaluate_thesis now
evaluate_thesis-Ran limit user_id thesis_id source adjustment s s' result h =
    let (clean, _, k1) = bind-eq-ok (lift (monitoring_source source)) _ s h in
    let s1 = record s { instants_drawn = s.instants_drawn + 1 } in
    let (thesis, found, k2) = bind-eq-ok (require_thesis user_id thesis_id) _ s1 k1 in
    let s2 = (require_thesis user_id thesis_id s1).1 in
    let (_, _, _, _, same) = require_thesis-found user_id thesis_id s1 thesis found in
    let (_, allowed, k3) = bind-eq-ok (lift (require_monitorable_thesis thesis)) _ s2 k2 in
    let (conditions, listed, k4) = bind-eq-ok (list_enabled_conditions user_id thesis_id) _ s2 k3 in
    let s3 = (list_enabled_conditions user_id thesis_id s2).1 in
    let (read, _) =
      list_enabled_conditions-ok user_id thesis_id s2 s3 conditions
        (run-eq (list_enabled_conditions user_id thesis_id) s2 listed) in
    let loop = run_conditions limit user_id thesis clean adjustment conditions in
    let (o, ran, k5) = bind-eq-ok loop _ s3 k4 in
    let (each, last) =
      run_conditions-ok limit user_id thesis clean adjustment conditions s3 (loop s3).1 o
        (run-eq loop s3 ran) in
    let results : o.1 ≡ result.conditions = ground (arith, k5) in
    let final : o.0 ≡ result.thesis = ground (arith, k5) in
    record {
      thesis = thesis;
      conditions = conditions;
      found = require_thesis-read user_id thesis_id s1 thesis found;
      monitorable = monitorable-of thesis allowed;
      listed =
          sym (
            ap (λ x. read_conditions (condition_rows user_id thesis_id (some true) x.conditions))
              same)
          ∙ read;
      reports = subst (Each IsReportOf conditions) results each;
      before = last.0;
      after = (loop s3).1;
      concluded = conclude-move thesis user_id last.0 (loop s3).1 results final last.1;
    }

-- When a run returns, its results are those of the enabled conditions of the thesis, one for each and in
-- the order of the listing. Each has an evaluation of that version of its condition at the date of
-- its metric, and an event, of that evaluation, exactly when the evaluation matched. So the result
-- counts as many evaluations as there are enabled conditions, and as many events as matches.
pub evaluate_thesis-reports :
    (limit user_id thesis_id : ℕ) (source : Text) (adjustment : PriceAdjustment) (s s' : Session)
    (result : ThesisMonitoringResult)
    → evaluate_thesis limit user_id thesis_id source adjustment s ≡ (ok result, s')
    → (conditions : List ThesisCondition) × (read_conditions
          (condition_rows user_id thesis_id (some true) s.conditions)
        ≡ ok conditions)
      × Each IsReportOf conditions result.conditions
      × (evaluation_count result ≡ length conditions)
      × (event_count result ≡ matched_count result)
unfolding evaluation_count event_count matched_count
evaluate_thesis-reports limit user_id thesis_id source adjustment s s' result h =
    let ran = evaluate_thesis-Ran limit user_id thesis_id source adjustment s s' result h in
    (ran.conditions, ran.listed, ran.reports, Each-length ran.reports, Each-counts ran.reports)
