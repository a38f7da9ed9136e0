-- ===== src/Monitoring/Reports.antt =====
-- app/services/thesis_monitoring_service.py: what a run reports of each condition.
use stock_master.Prelude.{
  ℕ, ◌+◌, ◌≡◌, refl, sym, ap, ◌∙◌, subst, Text, List, [], ◌∷◌, Bool, true, false, not, ◌==◌, some,
  ok, if◌then◌else◌, Each, each_nil, each_cons, >>=-eq-ok, raise_if, rule_evaluation, arith,
}
use stock_master.Prelude.Exec.{bind-eq-ok, run-eq, lift, pure}
use stock_master.Thesis.{DateTime, InvestmentThesis, ThesisCondition}
use stock_master.Event.{RuleEvaluation, DomainEvent, EventEvidence, make_event, is_some}
use stock_master.MarketData.{DailyBar, CompanyFundamentals}
use stock_master.Metric.{MetricResult}
use stock_master.Metric.Registry.{get_metric_definition}
use stock_master.Rules.{
  evaluate_condition, candidate, validate_relationships, consecutive_periods, period_matches,
}
use stock_master.Store.{Session, uuid4, now}
use stock_master.Store.Evaluations.{save_rule_evaluation}
use stock_master.Store.Evaluations.Reads.{make_evaluation-keys}
use stock_master.Monitoring.{
  ConditionMonitoringResult, count_true, load_prior_evaluations, build_evidence, report_event,
  matched_result, unmatched_result, judge, monitor_condition, monitor_conditions,
}
use stock_master.Monitoring.Build.{calculate_metric, build_event}
use stock_master.Monitoring.Answers.{
  save_rule_evaluation-IsSamePeriod, save_event_with_evidence-evaluation,
}

-- What a result says of a condition: its evaluation is of this version of the condition and the date of
-- the metric, and there is an event, of that evaluation, exactly when the evaluation matched.
pub record IsReportOf (c : ThesisCondition) (r : ConditionMonitoringResult) : Type 0 where
  pub condition : r.condition ≡ c
  pub condition_of : r.evaluation.condition_id ≡ c.id
  pub version : r.evaluation.rule_version ≡ c.version
  pub date : r.evaluation.data_as_of ≡ r.metric_result.data_as_of
  pub reported : is_some r.event ≡ r.evaluation.matched
  pub event_of : (e : DomainEvent) → r.event ≡ some e → e.evaluation_id ≡ r.evaluation.id

evaluate_condition-made :
    (id : ℕ) (instant : DateTime) (thesis : InvestmentThesis) (c : ThesisCondition)
    (metric : MetricResult) (prior : List RuleEvaluation) (e : RuleEvaluation)
    → evaluate_condition id instant thesis c metric prior ≡ ok e
    → (e.condition_id ≡ c.id) × (e.rule_version ≡ c.version) × (e.data_as_of ≡ metric.data_as_of)
unfolding evaluate_condition candidate
evaluate_condition-made id instant thesis c metric prior e h =
    let (_, _, h1) = >>=-eq-ok (validate_relationships thesis c metric) _ h in
    let (_, _, h2) =
      >>=-eq-ok (raise_if (not c.enabled) (rule_evaluation "condition is disabled")) _ h1 in
    let (n, _, made) =
      >>=-eq-ok (consecutive_periods thesis c metric (period_matches c metric) prior) _ h2 in
    let (_, _, condition, version, date) =
      make_evaluation-keys (candidate id instant thesis c metric n) e made in
    (condition, version, date)

-- What `judge` hands on: an evaluation of the condition at the date of the metric.
record IsJudged (c : ThesisCondition) (metric : MetricResult) (e : RuleEvaluation) : Type 0 where
  condition_of : e.condition_id ≡ c.id
  version : e.rule_version ≡ c.version
  date : e.data_as_of ≡ metric.data_as_of

judge-IsJudged :
    (thesis : InvestmentThesis) (c : ThesisCondition) (metric : MetricResult)
    (prior : List RuleEvaluation) (s s' : Session) (j : RuleEvaluation × RuleEvaluation)
    → judge thesis c metric prior s ≡ (ok j, s')
    → IsJudged c metric j.1
unfolding judge uuid4 now
judge-IsJudged thesis c metric prior s s' j h =
    let id = s.world.uuid s.uuids_drawn in
    let instant = s.world.clock s.instants_drawn in
    let s1 = record s { uuids_drawn = s.uuids_drawn + 1; instants_drawn = s.instants_drawn + 1 } in
    let (e, made, k1) =
      bind-eq-ok (lift (evaluate_condition id instant thesis c metric prior)) _ s1 h in
    let (f, saved, k2) = bind-eq-ok (save_rule_evaluation e) _ s1 k1 in
    let (condition_of, version, date) =
      evaluate_condition-made id instant thesis c metric prior e made in
    let p =
      save_rule_evaluation-IsSamePeriod e f s1 (save_rule_evaluation e s1).1
        (run-eq (save_rule_evaluation e) s1 saved) in
    let answer : j.1 ≡ f = ground (arith, k2) in
    subst (IsJudged c metric) (sym answer) (record {
      condition_of = p.condition ∙ condition_of;
      version = p.version ∙ version;
      date = p.date ∙ date;
    })

build_event-evaluation :
    (id : ℕ) (instant : DateTime) (c : ThesisCondition) (e : RuleEvaluation) (event : DomainEvent)
    → build_event id instant c e ≡ ok event
    → event.evaluation_id ≡ e.id
unfolding build_event make_event
build_event-evaluation id instant c e event h = ground arith

report_event-evaluation :
    (c : ThesisCondition) (e : RuleEvaluation) (source : Text) (s s' : Session)
    (r : DomainEvent × List EventEvidence)
    → report_event c e source s ≡ (ok r, s')
    → r.0.evaluation_id ≡ e.id
unfolding report_event uuid4 now
report_event-evaluation c e source s s' r h =
    let id = s.world.uuid s.uuids_drawn in
    let instant = s.world.clock s.instants_drawn in
    let s1 = record s { instants_drawn = s.instants_drawn + 1; uuids_drawn = s.uuids_drawn + 1 } in
    let (event, made, k1) = bind-eq-ok (lift (build_event id instant c e)) _ s1 h in
    let (items, _, k2) = bind-eq-ok (build_evidence event e source e.observation_ids) _ s1 k1 in
    save_event_with_evidence-evaluation event items _ s' r k2
    ∙ build_event-evaluation id instant c e event made

module _ (c : ThesisCondition) (metric : MetricResult) (reused : Bool) (source : Text)
    (e : RuleEvaluation) (judged : IsJudged c metric e) where
  unmatched_result-IsReportOf :
      e.matched ≡ false → IsReportOf c (unmatched_result c metric e reused)
  unmatched_result-IsReportOf h = record {
    condition = refl;
    condition_of = judged.condition_of;
    version = judged.version;
    date = judged.date;
    reported = sym h;
    event_of = λ x k. absurd (ground (arith, k));
  }

  matched_result-IsReportOf :
      (s s' : Session) (r : ConditionMonitoringResult)
      → e.matched ≡ true
      → matched_result c metric e reused source s ≡ (ok r, s')
      → IsReportOf c r
  unfolding matched_result
  matched_result-IsReportOf s s' r m h =
      let (saved, reported, k) = bind-eq-ok (report_event c e source) _ s h in
      let of =
        report_event-evaluation c e source s (report_event c e source s).1 saved
          (run-eq (report_event c e source) s reported) in
      let built : ConditionMonitoringResult = record {
        condition = c;
        metric_result = metric;
        evaluation = e;
        event = some saved.0;
        evidence = saved.1;
        reused_evaluation = reused;
      } in
      let answer : built ≡ r = ground (arith, k) in
      subst (IsReportOf c) answer (record {
        condition = refl;
        condition_of = judged.condition_of;
        version = judged.version;
        date = judged.date;
        reported = sym m;
        event_of = λ x g.
            let same : saved.0 ≡ x = ground (arith, g) in ap (λ z. z.evaluation_id) (sym same) ∙ of;
      })

  result_of :
      (matched : Bool) (s s' : Session) (r : ConditionMonitoringResult)
      → e.matched ≡ matched
      → (if matched
            then matched_result c metric e reused source
            else pure (unmatched_result c metric e reused))
          s
        ≡ (ok r, s')
      → IsReportOf c r
  result_of true s s' r m h = matched_result-IsReportOf s s' r m h
  result_of false s s' r m h =
      let answer : unmatched_result c metric e reused ≡ r = ground (arith, h) in
      subst (IsReportOf c) answer (unmatched_result-IsReportOf m)

monitor_condition-IsReportOf :
    (thesis : InvestmentThesis) (c : ThesisCondition) (source : Text) (bars : List DailyBar)
    (snapshots : List CompanyFundamentals) (s s' : Session) (r : ConditionMonitoringResult)
    → monitor_condition thesis c source bars snapshots s ≡ (ok r, s')
    → IsReportOf c r
unfolding monitor_condition
monitor_condition-IsReportOf thesis c source bars snapshots s s' r h =
    let (definition, _, k1) = bind-eq-ok (lift (get_metric_definition c.metric)) _ s h in
    let (metric, _, k2) = bind-eq-ok (lift (calculate_metric definition bars snapshots)) _ s k1 in
    let (prior, _, k3) = bind-eq-ok (load_prior_evaluations c metric.data_as_of) _ s k2 in
    let s1 = (load_prior_evaluations c metric.data_as_of s).1 in
    let (j, done, k4) = bind-eq-ok (judge thesis c metric prior) _ s1 k3 in
    let s2 = (judge thesis c metric prior s1).1 in
    let judged =
      judge-IsJudged thesis c metric prior s1 s2 j (run-eq (judge thesis c metric prior) s1 done) in
    result_of c metric (not (j.1.id == j.0.id)) source j.1 judged j.1.matched s2 s' r refl k4

pub monitor_conditions-Each :
    (thesis : InvestmentThesis) (source : Text) (bars : List DailyBar)
    (snapshots : List CompanyFundamentals) (cs : List ThesisCondition) (s s' : Session)
    (rs : List ConditionMonitoringResult)
    → monitor_conditions thesis source bars snapshots cs s ≡ (ok rs, s')
    → Each IsReportOf cs rs
unfolding monitor_conditions
monitor_conditions-Each thesis source bars snapshots [] s s' rs h =
    let none_done : [] ≡ rs = ground (arith, h) in subst (Each IsReportOf []) none_done each_nil
monitor_conditions-Each thesis source bars snapshots (c ∷ cs) s s' rs h =
    let one = monitor_condition thesis c source bars snapshots in
    let others = monitor_conditions thesis source bars snapshots cs in
    let (r, done, k1) = bind-eq-ok one _ s h in
    let s1 = (one s).1 in
    let (more, rest, k2) = bind-eq-ok others _ s1 k1 in
    let all_done : r ∷ more ≡ rs = ground (arith, k2) in
    subst (Each IsReportOf (c ∷ cs)) all_done (
      each_cons
        (monitor_condition-IsReportOf thesis c source bars snapshots s s1 r (run-eq one s done))
        (monitor_conditions-Each thesis source bars snapshots cs s1 (others s1).1 more
          (run-eq others s1 rest)))

pub Each-counts :
    {cs : List ThesisCondition} {rs : List ConditionMonitoringResult}
    → Each IsReportOf cs rs
    → count_true (λ r. is_some r.event) rs ≡ count_true (λ r. r.evaluation.matched) rs
unfolding count_true
Each-counts each_nil = refl
Each-counts (each_cons r rs) = rw (r.reported, Each-counts rs)
