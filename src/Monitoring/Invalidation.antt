-- ===== src/Monitoring/Invalidation.antt =====
-- app/services/thesis_monitoring_service.py: what a run makes of the status of its thesis.
use stock_master.Prelude.{
  ℕ, ◌≡◌, refl, sym, ap, ◌∙◌, Text, List, Bool, true, false, ◌&&◌, Option, none, some, ok, find?,
  Each, each_nil, each_cons, arith,
}
use stock_master.Thesis.{
  InvestmentThesis, ThesisCondition, make_thesis, same_status, same_kind, invalidated, invalidation,
}
use stock_master.Event.{is_some}
use stock_master.MarketData.{PriceAdjustment}
use stock_master.Store.{Session}
use stock_master.Store.Theses.{read_thesis, owns_thesis, update_thesis, updated_row}
use stock_master.Store.Theses.Lifecycle.{update_thesis-Updates}
use stock_master.Monitoring.{
  ConditionMonitoringResult, ThesisMonitoringResult, invalidates, invalidation_update, conclude,
  evaluate_thesis,
}
use stock_master.Monitoring.Build.{is_monitorable}
use stock_master.Monitoring.Reports.{IsReportOf}
use stock_master.Monitoring.Runs.{evaluate_thesis-Ran}

-- An invalidation condition that matched.
abbrev pub falsifies : ConditionMonitoringResult → Bool
falsifies r = same_kind r.condition.kind invalidation && r.evaluation.matched

find?-falsifies :
    {cs : List ThesisCondition} {rs : List ConditionMonitoringResult}
    → Each IsReportOf cs rs
    → find? invalidates rs ≡ find? falsifies rs
unfolding invalidates
find?-falsifies each_nil = refl
find?-falsifies (each_cons r rs) = ground (arith, r.reported, find?-falsifies rs)

invalidation-status :
    (thesis t : InvestmentThesis) (user_id : ℕ) (r : ConditionMonitoringResult) (s s' : Session)
    → update_thesis (invalidation_update thesis user_id r.event) s ≡ (ok t, s')
    → t.status ≡ invalidated
unfolding invalidation_update updated_row make_thesis
invalidation-status thesis t user_id r s s' h =
    let u = update_thesis-Updates (invalidation_update thesis user_id r.event) s s' t h in
    let made = u.made in ground (arith, made)

-- The thesis at the end, from the invalidation that was found.
Concluded : InvestmentThesis → InvestmentThesis → Option ConditionMonitoringResult → Type 0
Concluded thesis final found =
    (found ≡ none → final ≡ thesis) × (same_status final.status invalidated ≡ is_some found)

conclude-Concluded :
    (thesis final : InvestmentThesis) (user_id : ℕ) (found : Option ConditionMonitoringResult)
    (s s' : Session)
    → is_monitorable thesis.status ≡ true
    → conclude thesis user_id found s ≡ (ok final, s')
    → Concluded thesis final found
unfolding conclude Concluded is_monitorable
conclude-Concluded thesis final user_id none s s' m h =
    let same : thesis ≡ final = ground (arith, h) in
    let live : same_status thesis.status invalidated ≡ false = ground (arith, m) in
    (λ _. sym same, ap (λ t. same_status t.status invalidated) (sym same) ∙ live)
conclude-Concluded thesis final user_id (some r) s s' m h =
    let live : same_status thesis.status invalidated ≡ false = ground (arith, m) in
    let updated : update_thesis (invalidation_update thesis user_id r.event) s ≡ (ok final, s') =
      rw (← h, live) refl in
    let status = invalidation-status thesis final user_id r s s' updated in
    (λ k. absurd (ground (arith, k)), rw status refl)

-- When a run returns, its thesis was active or challenged when the run read it. The thesis that it
-- returns is invalidated exactly when an invalidation condition matched, and is the thesis as read when none
-- did.
pub evaluate_thesis-invalidation :
    (limit user_id thesis_id : ℕ) (source : Text) (adjustment : PriceAdjustment) (s s' : Session)
    (result : ThesisMonitoringResult)
    → evaluate_thesis limit user_id thesis_id source adjustment s ≡ (ok result, s')
    → (thesis : InvestmentThesis) × (read_thesis (find? (owns_thesis user_id thesis_id) s.theses)
        ≡ ok (some thesis))
      × (is_monitorable thesis.status ≡ true)
      × (find? falsifies result.conditions ≡ none → result.thesis ≡ thesis)
      × (same_status result.thesis.status invalidated ≡ is_some (find? falsifies result.conditions))
unfolding Concluded
evaluate_thesis-invalidation limit user_id thesis_id source adjustment s s' result h =
    let ran = evaluate_thesis-Ran limit user_id thesis_id source adjustment s s' result h in
    let same = find?-falsifies ran.reports in
    let (kept, status) =
      conclude-Concluded ran.thesis result.thesis user_id (find? invalidates result.conditions)
        ran.before ran.after ran.monitorable ran.concluded in
    (ran.thesis, ran.found, ran.monitorable, (λ e. kept (same ∙ e)), status ∙ ap is_some same)
