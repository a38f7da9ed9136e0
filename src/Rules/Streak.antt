-- ===== src/Rules/Streak.antt =====
-- A condition judged over successive periods, each evaluation with the one before it as its history,
-- as app/services/thesis_monitoring_service.py asks of app/domain/rule_engine.py: the stored counts
-- are the lengths of the runs of matching periods.
use stock_master.Prelude.{
  ℕ, ◌+◌, ◌≤◌, ◌<◌, ◌≡◌, List, [], ◌∷◌, Bool, true, false, Result, ok, ◌>>=◌, arith, refl, ap, ap₂,
  ◌∙◌, some, none, Option, map, leb, min, ◌==◌, if◌then◌else◌, Bool-cases, inl, inr,
}
use mathlib.Core.List.{Memᴰ}
use stock_master.Rules.History.{IsPrior, IsHistory, IsLatest}
use stock_master.Rules.Consecutive.{consecutive_periods_accepts, consecutive_periods-latest}
use stock_master.Thesis.{DateTime, InvestmentThesis, ThesisCondition, thesis_fits, condition_fits}
use stock_master.Thesis.Laws.{condition_fits-periods}
use stock_master.Rules.Outcome.{evaluate_condition_of_count, validate_relationships-thesis}
use stock_master.Event.{RuleEvaluation}
use stock_master.Metric.{MetricResult}
use stock_master.Rules.{
  validate_relationships, period_matches, consecutive_periods, candidate, evaluate_condition,
}

-- The draws and the metric of one period.
pub record Period : Type 0 where
  pub id : ℕ
  pub now : DateTime
  pub metric : MetricResult

-- `_load_prior_evaluations`: only the preceding evaluation, and none for a single period
unfoldable pub prior_of : ThesisCondition → Option RuleEvaluation → List RuleEvaluation
prior_of condition none = []
prior_of condition (some e) = if condition.consecutive_periods == 1 then [] else e ∷ []

-- The evaluations of successive periods.
unfoldable pub evaluate_periods :
    InvestmentThesis
    → ThesisCondition
    → Option RuleEvaluation
    → List Period
    → Result (List RuleEvaluation)
evaluate_periods thesis condition previous [] = ok []
evaluate_periods thesis condition previous (p ∷ ps) = do
  e ← evaluate_condition p.id p.now thesis condition p.metric (prior_of condition previous)
  rest ← evaluate_periods thesis condition (some e) ps
  ok (e ∷ rest)

-- The lengths of the runs of matches that end at each period, when `n` matches came before.
unfoldable pub run_lengths : ℕ → List Bool → List ℕ
run_lengths n [] = []
run_lengths n (b ∷ bs) = let run = (if b then n + 1 else 0) in run ∷ run_lengths run bs

abbrev pub After : Option ℕ → ℕ → Type 0
After none d = Unit
After (some c) d = c < d

abbrev pub count_of : RuleEvaluation → ℕ
count_of e = e.consecutive_periods_matched

abbrev pub matched_of : RuleEvaluation → Bool
matched_of e = e.matched

abbrev pub date_of_previous : Option RuleEvaluation → Option ℕ
date_of_previous none = none
date_of_previous (some e) = some e.data_as_of

module _ (thesis : InvestmentThesis) (condition : ThesisCondition) where
  -- Metrics of this condition at ever later dates, the first one after the given date.
  abbrev pub IsSeries : Option ℕ → List Period → Type 0
  IsSeries d [] = Unit
  IsSeries d (p ∷ ps) =
      After d p.metric.data_as_of
      × (validate_relationships thesis condition p.metric ≡ ok tt)
      × IsSeries (some p.metric.data_as_of) ps

  -- `e` is an evaluation of this condition, and `k` matching periods ended at it.
  pub record Ended (k : ℕ) (e : RuleEvaluation) : Type 0 where
    pub user : e.user_id ≡ condition.user_id
    pub thesis_of : e.thesis_id ≡ thesis.id
    pub condition_of : e.condition_id ≡ condition.id
    pub version : e.rule_version ≡ condition.version
    pub count : e.consecutive_periods_matched ≡ min k condition.consecutive_periods

  abbrev pub EndedAt : ℕ → Option RuleEvaluation → Type 0
  EndedAt k none = k ≡ 0
  EndedAt k (some e) = Ended k e

  module _ (pos : 1 ≤ condition.consecutive_periods) where
    step_single :
        (k : ℕ) (metric : MetricResult) (prior : List RuleEvaluation)
        → (condition.consecutive_periods == 1) ≡ true
        → consecutive_periods thesis condition metric true prior
          ≡ ok (min (k + 1) condition.consecutive_periods)
    unfolding consecutive_periods
    step_single k metric prior one = ground arith

    step_first :
        (metric : MetricResult)
        → (condition.consecutive_periods == 1) ≡ false
        → consecutive_periods thesis condition metric true []
          ≡ ok (min (0 + 1) condition.consecutive_periods)
    step_first metric several =
        (consecutive_periods_accepts thesis condition metric (ground arith) []).1
        ∙ ap ok (omega arith)

    step_next :
        (k : ℕ) (e : RuleEvaluation) (metric : MetricResult)
        → (condition.consecutive_periods == 1) ≡ false
        → Ended k e
        → e.data_as_of < metric.data_as_of
        → consecutive_periods thesis condition metric true (e ∷ [])
          ≡ ok (min (k + 1) condition.consecutive_periods)
    step_next k e metric several ended after =
        let owned : IsPrior thesis condition metric.data_as_of e = record {
          user = ended.user;
          thesis_of = ended.thesis_of;
          condition_of = ended.condition_of;
          version = ended.version;
          before = after;
        } in
        let history : IsHistory thesis condition metric.data_as_of (e ∷ []) = record {
          owned = (owned, tt);
          dates = (tt, tt);
        } in
        let latest : IsLatest thesis condition metric.data_as_of e (e ∷ []) = record {
          member = Memᴰ.head refl;
          latest = (omega arith, tt);
        } in
        consecutive_periods-latest thesis condition metric (ground arith) (e ∷ []) e history latest
        ∙ ap ok (omega (arith, ended.count))

    step_match :
        (k : ℕ) (previous : Option RuleEvaluation) (metric : MetricResult)
        → EndedAt k previous
        → After (date_of_previous previous) metric.data_as_of
        → consecutive_periods thesis condition metric true (prior_of condition previous)
          ≡ ok (min (k + 1) condition.consecutive_periods)
    unfolding prior_of
    step_match k none metric ended after = elim (Bool-cases (condition.consecutive_periods == 1)) [
      | inl one ↦ step_single k metric [] one
      | inr several ↦ rw ended (step_first metric several)
    ]
    step_match k (some e) metric ended after =
        elim (Bool-cases (condition.consecutive_periods == 1)) [
          | inl one ↦ rw one (step_single k metric [] one)
          | inr several ↦ rw several (step_next k e metric several ended after)
        ]

    step :
        (k : ℕ) (previous : Option RuleEvaluation) (metric : MetricResult) (matches : Bool)
        → EndedAt k previous
        → After (date_of_previous previous) metric.data_as_of
        → consecutive_periods thesis condition metric matches (prior_of condition previous)
          ≡ ok (min (if matches then k + 1 else 0) condition.consecutive_periods)
    step k previous metric true ended after = step_match k previous metric ended after
    step k previous metric false ended after = unfold consecutive_periods in ground arith

-- The evaluations of the periods succeed; each count is the length of the run of matching periods
-- that ends there, up to the requirement, and an evaluation is flagged as matched exactly when the
-- run has reached it.
abbrev pub CountsRuns :
    InvestmentThesis → ThesisCondition → Option RuleEvaluation → ℕ → List Period → Type 0
CountsRuns thesis condition previous k ps =
    let runs = run_lengths k (map (λ (p : Period). period_matches condition p.metric) ps) in
    (es : List RuleEvaluation) × (evaluate_periods thesis condition previous ps ≡ ok es)
    × (map count_of es ≡ map (λ n. min n condition.consecutive_periods) runs)
    × (map matched_of es ≡ map (λ n. leb condition.consecutive_periods n) runs)

-- A capped count reaches the cap when the count does.
capped : (n cap : ℕ) → leb cap (min n cap) ≡ leb cap n
capped n cap = ground arith

module _ (thesis : InvestmentThesis) (condition : ThesisCondition) (t : thesis_fits thesis ≡ true)
    (c : condition_fits condition ≡ true) (enabled : condition.enabled ≡ true) where
  candidate-Ended :
      (p : Period) (k : ℕ)
      → validate_relationships thesis condition p.metric ≡ ok tt
      → Ended thesis condition k
          (candidate p.id p.now thesis condition p.metric (min k condition.consecutive_periods))
  unfolding candidate
  candidate-Ended p k related = record {
    user = refl;
    thesis_of = validate_relationships-thesis thesis condition p.metric related;
    condition_of = refl;
    version = refl;
    count = refl;
  }

  evaluate_periods_from :
      (k : ℕ) (previous : Option RuleEvaluation) (ps : List Period)
      → EndedAt thesis condition k previous
      → IsSeries thesis condition (date_of_previous previous) ps
      → CountsRuns thesis condition previous k ps
  unfolding evaluate_periods run_lengths candidate
  evaluate_periods_from k previous [] ended series = ([], refl, refl, refl)
  evaluate_periods_from k previous (p ∷ ps) ended series =
      let run : ℕ = if period_matches condition p.metric then k + 1 else 0 in
      let n : ℕ = min run condition.consecutive_periods in
      let e : RuleEvaluation = candidate p.id p.now thesis condition p.metric n in
      let counted =
        step thesis condition (condition_fits-periods condition c).0 k previous p.metric
          (period_matches condition p.metric) ended series.0 in
      let made =
        evaluate_condition_of_count p.id p.now thesis condition p.metric t c
          (prior_of condition previous) n series.1 enabled counted in
      let (es, rest, counts, flags) =
        evaluate_periods_from run (some e) ps (candidate-Ended p run series.1) series.2 in
      (
        e ∷ es,
        rw (made, rest),
        ap (λ zs. n ∷ zs) counts,
        ap₂ ◌∷◌ (capped run condition.consecutive_periods) flags,
      )

  -- For an enabled condition and a thesis that meet their models' constraints, over metrics of the
  -- condition at ever later dates: every evaluation succeeds, its count is the number of periods of
  -- the run of matches that ends with it, up to the requirement, and it is flagged as matched exactly
  -- when that run is at least as long as the requirement.
  pub evaluate_periods_count_runs :
      (ps : List Period) → IsSeries thesis condition none ps → CountsRuns thesis condition none 0 ps
  evaluate_periods_count_runs ps series = evaluate_periods_from 0 none ps refl series
