-- ===== src/Store/Evaluations/Prior.antt =====
-- `list_prior_evaluations` of app/database/thesis_repositories.py hands the rule engine a history that
-- it accepts.
use mathlib.Core.List.Permᴰ
use stock_master.Prelude.{
  ℕ, ◌≡◌, ◌≤◌, sym, ap, ◌∙◌, List, [], ◌∷◌, true, false, ◌&&◌, not, leb, ok, value_error, keep,
  keep-case, take, All-take, length-take, length-perm, All, arith, length,
}
use stock_master.Prelude.Order.{sorted, sorted-perm}
use stock_master.Prelude.Order.Distinct.{Apart, Distinct, Distinct-perm, Distinct-take, All-perm}
use stock_master.Prelude.Exec.{bind-eq-ok, raise_when}
use stock_master.Thesis.{InvestmentThesis, ThesisCondition}
use stock_master.Event.{RuleEvaluation}
use stock_master.Rules.History.{IsPrior, IsHistory, date_of}
use stock_master.Store.{Session}
use stock_master.Store.Conditions.{require_condition, require_condition-state}
use stock_master.Store.Evaluations.{
  same_period, PriorQuery, is_prior, newest_first, prior_rows, read_evaluations,
  list_prior_evaluations,
}
use stock_master.Store.Evaluations.Periods.{UniquePeriods}
use stock_master.Prelude.Reading.{Reads-length}
use stock_master.Store.Evaluations.Reads.{Reads-owned, Reads-dates, read_evaluations-Reads}

-- the query that the monitoring service makes for a condition of a thesis
abbrev pub query_of : InvestmentThesis → ThesisCondition → ℕ → PriorQuery
query_of thesis condition before = record {
  user_id = condition.user_id;
  thesis_id = thesis.id;
  condition_id = condition.id;
  rule_version = condition.version;
  before = before;
}

module _ (thesis : InvestmentThesis) (condition : ThesisCondition) (before : ℕ) where
  abbrev q : PriorQuery
  q = query_of thesis condition before

  is_prior-IsPrior : (e : RuleEvaluation) → is_prior q e ≡ true → IsPrior thesis condition before e
  unfolding is_prior
  is_prior-IsPrior e h = record {
    user = ground arith;
    thesis_of = ground arith;
    condition_of = ground arith;
    version = ground arith;
    before = ground arith;
  }

  keep-IsPrior :
      (rows : List RuleEvaluation) → All (IsPrior thesis condition before) (keep (is_prior q) rows)
  keep-IsPrior [] = tt
  keep-IsPrior (x ∷ xs) =
      keep-case (All (IsPrior thesis condition before)) (is_prior q) x xs
        (λ e. (is_prior-IsPrior x e, keep-IsPrior xs)) (λ e. keep-IsPrior xs)

  IsPrior-Apart :
      (a b : RuleEvaluation)
      → IsPrior thesis condition before a
      → IsPrior thesis condition before b
      → same_period a b ≡ false
      → Apart date_of a b
  unfolding same_period
  IsPrior-Apart a b p r h e =
      absurd (ground (arith, h, e, p.condition_of, r.condition_of, p.version, r.version))

  keep-Apart :
      (a : RuleEvaluation) (rows : List RuleEvaluation)
      → IsPrior thesis condition before a
      → All (λ y. same_period a y ≡ false) rows
      → All (Apart date_of a) (keep (is_prior q) rows)
  keep-Apart a [] p h = tt
  keep-Apart a (x ∷ xs) p h =
      keep-case (All (Apart date_of a)) (is_prior q) x xs
        (λ e. (IsPrior-Apart a x p (is_prior-IsPrior x e) h.0, keep-Apart a xs p h.1))
        (λ e. keep-Apart a xs p h.1)

  keep-Distinct :
      (rows : List RuleEvaluation) → UniquePeriods rows → Distinct date_of (keep (is_prior q) rows)
  keep-Distinct [] u = tt
  keep-Distinct (x ∷ xs) u =
      keep-case (Distinct date_of) (is_prior q) x xs
        (λ e. (keep-Apart x xs (is_prior-IsPrior x e) u.0, keep-Distinct xs u.1))
        (λ e. keep-Distinct xs u.1)

  prior_rows-IsHistory :
      (limit : ℕ) (rows : List RuleEvaluation)
      → UniquePeriods rows
      → IsHistory thesis condition before (prior_rows q limit rows)
  unfolding prior_rows
  prior_rows-IsHistory limit rows u =
      let kept = keep (is_prior q) rows in
      let order = Permᴰ.symm (sorted-perm newest_first kept) in
      let turn = Permᴰ.symm (Permᴰ.reverse (take limit (sorted newest_first kept))) in
      let P = IsPrior thesis condition before in
      record {
        owned = All-perm P turn (All-take P limit _ (All-perm P order (keep-IsPrior rows)));
        dates =
            Distinct-perm date_of turn
              (Distinct-take date_of limit _ (Distinct-perm date_of order (keep-Distinct rows u)));
      }

prior_rows-length :
    (q : PriorQuery) (limit : ℕ) (rows : List RuleEvaluation)
    → length (prior_rows q limit rows) ≤ limit
unfolding prior_rows
prior_rows-length q limit rows =
    let window = take limit (sorted newest_first (keep (is_prior q) rows)) in
    omega (
      arith,
      length-perm (Permᴰ.reverse window),
      length-take limit (sorted newest_first (keep (is_prior q) rows)),
    )

pub list_prior_evaluations-ok :
    (q : PriorQuery) (limit : ℕ) (s s' : Session) (es : List RuleEvaluation)
    → list_prior_evaluations q limit s ≡ (ok es, s')
    → (read_evaluations (prior_rows q limit s.evaluations) ≡ ok es) × (s' ≡ s)
unfolding list_prior_evaluations
list_prior_evaluations-ok q limit s s' es h =
    let found = require_condition q.user_id q.thesis_id q.condition_id in
    let same = require_condition-state q.user_id q.thesis_id q.condition_id s in
    let (_, _, k1) =
      bind-eq-ok (raise_when (not (leb 1 limit && leb limit 100)) value_error) _ s h in
    let (_, _, k2) = bind-eq-ok found _ s k1 in
    (
      sym (ap (λ z. read_evaluations (prior_rows q limit z.evaluations)) same) ∙ ap (λ p. p.0) k2,
      sym (ap (λ p. p.1) k2) ∙ same,
    )

-- When no two rows of the table have one condition, rule version and date, the prior evaluations that
-- are listed for a condition of a thesis before a date are a history that the rule engine accepts
-- for that thesis, condition and date: each is of them and earlier, and no two have one date. They
-- are no more than the limit, and the session is unchanged.
pub list_prior_evaluations-IsHistory :
    (thesis : InvestmentThesis) (condition : ThesisCondition) (before limit : ℕ) (s s' : Session)
    (es : List RuleEvaluation)
    → UniquePeriods s.evaluations
    → list_prior_evaluations (query_of thesis condition before) limit s ≡ (ok es, s')
    → IsHistory thesis condition before es × (length es ≤ limit) × (s' ≡ s)
list_prior_evaluations-IsHistory thesis condition before limit s s' es u h =
    let q = query_of thesis condition before in
    let (read, same) = list_prior_evaluations-ok q limit s s' es h in
    let reads = read_evaluations-Reads (prior_rows q limit s.evaluations) es read in
    let history = prior_rows-IsHistory thesis condition before limit s.evaluations u in
    (
      record {
        owned = Reads-owned thesis condition before reads history.owned;
        dates = Reads-dates reads history.dates;
      },
      omega (arith, Reads-length reads, prior_rows-length q limit s.evaluations),
      same,
    )
