-- ===== src/Store/Evaluations/OnePrior.antt =====
-- The monitoring service asks `list_prior_evaluations` of app/database/thesis_repositories.py for one
-- evaluation only.
use mathlib.Core.List.{Memᴰ, reverse}
use mathlib.Core.List.Permᴰ
use stock_master.Prelude.{
  ℕ, suc, ◌≡◌, ◌≤◌, ◌<◌, refl, sym, ap, ◌∙◌, List, [], ◌∷◌, true, Result, ok, keep, take, All,
  All-take, arith,
}
use stock_master.Prelude.Order.{IsOrder, IsSorted, sorted, sorted-IsSorted}
use stock_master.Prelude.Order.Distinct.{All-perm, Memᴰ-perm}
use stock_master.Thesis.{InvestmentThesis, ThesisCondition}
use stock_master.Event.{RuleEvaluation, make_evaluation}
use stock_master.Metric.{MetricResult}
use stock_master.Rules.{consecutive_periods}
use stock_master.Rules.History.{IsHistory, IsLatest}
use stock_master.Rules.Consecutive.{consecutive_periods-latest}
use stock_master.Store.{Session}
use stock_master.Store.Evaluations.{
  PriorQuery, is_prior, newest_first, prior_rows, list_prior_evaluations,
}
use stock_master.Store.Evaluations.Periods.{UniquePeriods}
use stock_master.Prelude.Reading.{Reads, none_left, one_more, Reads-nil, Reads-Memᴰ, Reads-All}
use stock_master.Store.Evaluations.Reads.{read_evaluations-Reads, make_evaluation-keys}
use stock_master.Store.Evaluations.Prior.{
  query_of, list_prior_evaluations-ok, list_prior_evaluations-IsHistory,
}

newest_first-IsOrder : IsOrder newest_first
unfolding newest_first
newest_first-IsOrder = record {
  total = λ a b h. ground arith;
  le_trans = λ a b c h k. ground arith;
}

newest_first-date : (a b : RuleEvaluation) → newest_first a b ≡ true → b.data_as_of ≤ a.data_as_of
unfolding newest_first
newest_first-date a b h = ground arith

-- the rows in the order of the query
abbrev ordered_rows : PriorQuery → List RuleEvaluation → List RuleEvaluation
ordered_rows q rows = sorted newest_first (keep (is_prior q) rows)

Dates : RuleEvaluation → List RuleEvaluation → Type 0
Dates x = All (λ y. y.data_as_of ≤ x.data_as_of)

sorted-Dates :
    (x : RuleEvaluation) (xs : List RuleEvaluation)
    → All (λ y. newest_first x y ≡ true) xs
    → Dates x xs
unfolding Dates
sorted-Dates x [] h = tt
sorted-Dates x (y ∷ ys) h = (newest_first-date x y h.0, sorted-Dates x ys h.1)

Reads-Dates :
    {rows es : List RuleEvaluation} (x e : RuleEvaluation)
    → Reads make_evaluation rows es
    → e.data_as_of ≡ x.data_as_of
    → Dates x rows
    → Dates e es
unfolding Dates
Reads-Dates x e r h d =
    Reads-All (λ y. y.data_as_of ≤ x.data_as_of) (λ y. y.data_as_of ≤ e.data_as_of)
      (λ row y made p.
        let (_, _, _, _, date) = make_evaluation-keys row y made in omega (arith, date, h, p))
      r d

Reads-one :
    {x : RuleEvaluation} {es : List RuleEvaluation}
    → Reads make_evaluation (x ∷ []) es
    → (e : RuleEvaluation) × (make_evaluation x ≡ ok e) × (es ≡ e ∷ [])
Reads-one (one_more {model = e} made none_left) = (e, made, refl)

module _ (thesis : InvestmentThesis) (condition : ThesisCondition) (metric : MetricResult)
    (many : 1 < condition.consecutive_periods) where
  abbrev count : List RuleEvaluation → Result ℕ
  count = consecutive_periods thesis condition metric true

  IsLatest-window :
      (x e : RuleEvaluation) (xs es : List RuleEvaluation) (n : ℕ)
      → make_evaluation x ≡ ok e
      → Dates x (x ∷ xs)
      → Reads make_evaluation (reverse (take (suc n) (x ∷ xs))) es
      → IsLatest thesis condition metric.data_as_of e es
  unfolding Dates
  IsLatest-window x e xs es n made d r =
      let (_, _, _, _, date) = make_evaluation-keys x e made in
      let turn = Permᴰ.symm (Permᴰ.reverse (take (suc n) (x ∷ xs))) in
      let window = All-take (λ y. y.data_as_of ≤ x.data_as_of) (suc n) (x ∷ xs) d in
      record {
        member = Reads-Memᴰ x e r (Memᴰ-perm turn (Memᴰ.head refl)) made;
        latest = Reads-Dates x e r date (All-perm (λ y. y.data_as_of ≤ x.data_as_of) turn window);
      }

  same_count :
      (rows : List RuleEvaluation) (n : ℕ) (one es : List RuleEvaluation)
      → IsSorted newest_first rows
      → IsHistory thesis condition metric.data_as_of one
      → IsHistory thesis condition metric.data_as_of es
      → Reads make_evaluation (reverse (take 1 rows)) one
      → Reads make_evaluation (reverse (take (suc n) rows)) es
      → count one ≡ count es
  unfolding Dates
  same_count [] n one es s h k r t = ap count (Reads-nil r ∙ sym (Reads-nil t))
  same_count (x ∷ xs) n one es s h k r t =
      let (e, made, _) = Reads-one r in
      let d : Dates x (x ∷ xs) = (omega arith, sorted-Dates x xs s.0) in
      consecutive_periods-latest thesis condition metric many one e h
        (IsLatest-window x e xs one 0 made d r)
      ∙ sym (
          consecutive_periods-latest thesis condition metric many es e k
            (IsLatest-window x e xs es n made d t))

  -- When no two rows of the table have one condition, rule version and date, and the condition asks for
  -- several periods: the streak that the rule engine counts for a matching period from the one
  -- prior evaluation that the monitoring service asks for is the streak that it counts from those
  -- that a query with any other limit lists.
  pub one_prior_suffices :
      (limit : ℕ) (s s1 s2 : Session) (one es : List RuleEvaluation)
      → UniquePeriods s.evaluations
      → list_prior_evaluations (query_of thesis condition metric.data_as_of) 1 s ≡ (ok one, s1)
      → list_prior_evaluations (query_of thesis condition metric.data_as_of) (suc limit) s
        ≡ (ok es, s2)
      → consecutive_periods thesis condition metric true one
        ≡ consecutive_periods thesis condition metric true es
  unfolding prior_rows
  one_prior_suffices limit s s1 s2 one es u h k =
      let q = query_of thesis condition metric.data_as_of in
      let (first, _, _) =
        list_prior_evaluations-IsHistory thesis condition metric.data_as_of 1 s s1 one u h in
      let (others, _, _) =
        list_prior_evaluations-IsHistory thesis condition metric.data_as_of (suc limit) s s2 es u
          k in
      let (read_one, _) = list_prior_evaluations-ok q 1 s s1 one h in
      let (read_es, _) = list_prior_evaluations-ok q (suc limit) s s2 es k in
      same_count (ordered_rows q s.evaluations) limit one es
        (sorted-IsSorted newest_first-IsOrder (keep (is_prior q) s.evaluations)) first others
        (read_evaluations-Reads _ one read_one) (read_evaluations-Reads _ es read_es)
