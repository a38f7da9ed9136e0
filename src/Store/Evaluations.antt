-- ===== src/Store/Evaluations.antt =====
-- app/database/thesis_repositories.py: the evaluations of a condition, one for each version of the
-- condition and each date.
pub mod Periods
pub mod Again
pub mod OnePrior
pub mod Prior
pub mod Reads
mod Tests
use mathlib.Core.List.{reverse}
use stock_master.Prelude.{
  ℕ, ◌≡◌, List, [], ◌∷◌, ◌++◌, Bool, true, false, ◌&&◌, ◌||◌, not, ◌==◌, leb, ltb, Option, none,
  some, Result, ok, err, repository_conflict, integrity_error, data_error, value_error, or_raise,
  if◌then◌else◌, find?, keep, take,
}
use stock_master.Prelude.Order.{sorted}
use stock_master.Prelude.Exec.{Exec, ◌>>=◌, ◌>>◌, pure, lift, gets, modify, raise_when}
use stock_master.Prelude.Reading.{read_all}
use stock_master.Event.{RuleEvaluation, make_evaluation, is_some}
use stock_master.Store.{Session, World}
use stock_master.Store.Conditions.{require_condition}

-- the row that the table stores for an evaluation, if its numbers fit their columns
unfoldable pub stored_evaluation : World → RuleEvaluation → Option RuleEvaluation
stored_evaluation world e = elim (world.numeric e.observed_value) [
  | none ↦ none
  | some value ↦ elim (world.numeric e.threshold) [
    | none ↦ none
    | some limit ↦ some (record e { observed_value = value; threshold = limit })
  ]
]

-- the unique key `rule_evaluation_period_identity`
unfoldable pub same_period : RuleEvaluation → RuleEvaluation → Bool
same_period e row =
    (row.condition_id == e.condition_id)
    && (row.rule_version == e.rule_version)
    && (row.data_as_of == e.data_as_of)

-- the INSERT where no row has the period: whether it inserted
unfoldable pub insert_new : RuleEvaluation → RuleEvaluation → Exec Session Bool
insert_new e row = do
  taken ← gets (λ s. find? (λ (r : RuleEvaluation). r.id == e.id) s.evaluations)
  raise_when (is_some taken) integrity_error
  modify (λ s. record s { evaluations = s.evaluations ++ row ∷ [] })
  pure true

-- `INSERT ... ON CONFLICT ON CONSTRAINT rule_evaluation_period_identity DO NOTHING RETURNING id`
unfoldable pub insert_evaluation : RuleEvaluation → Exec Session Bool
insert_evaluation e = do
  stored ← gets (λ s. stored_evaluation s.world e)
  row ← lift (or_raise stored data_error)
  present ← gets (λ s. is_some (find? (same_period e) s.evaluations))
  if present then pure false else insert_new e row

-- the clause of `get_rule_evaluation_for_period`
unfoldable pub of_period : RuleEvaluation → RuleEvaluation → Bool
of_period e row = (row.user_id == e.user_id) && (row.thesis_id == e.thesis_id) && same_period e row

-- `_evaluation_from_row` builds the model anew
unfoldable pub read_evaluation : Option RuleEvaluation → Result (Option RuleEvaluation)
read_evaluation none = ok none
read_evaluation (some row) = elim (make_evaluation row) [
  | ok e ↦ ok (some e)
  | err raised ↦ err raised
]

-- at the user, thesis, condition, version and date of an evaluation
unfoldable pub get_rule_evaluation_for_period :
    RuleEvaluation → Exec Session (Option RuleEvaluation)
get_rule_evaluation_for_period e s = (read_evaluation (find? (of_period e) s.evaluations), s)

-- the evaluation that an earlier run saved
unfoldable pub existing_evaluation : RuleEvaluation → Exec Session RuleEvaluation
existing_evaluation e = do
  existing ← get_rule_evaluation_for_period e
  lift (or_raise existing repository_conflict)

unfoldable pub save_rule_evaluation : RuleEvaluation → Exec Session RuleEvaluation
save_rule_evaluation e = do
  require_condition e.user_id e.thesis_id e.condition_id
  inserted ← insert_evaluation e
  if inserted then pure e else existing_evaluation e

-- the arguments of `list_prior_evaluations`, but for the limit
pub record PriorQuery : Type 0 where
  pub user_id : ℕ
  pub thesis_id : ℕ
  pub condition_id : ℕ
  pub rule_version : ℕ
  pub before : ℕ

unfoldable pub is_prior : PriorQuery → RuleEvaluation → Bool
is_prior q row =
    (row.user_id == q.user_id)
    && (row.thesis_id == q.thesis_id)
    && (row.condition_id == q.condition_id)
    && (row.rule_version == q.rule_version)
    && ltb row.data_as_of q.before

-- `ORDER BY data_as_of DESC, evaluated_at DESC`
unfoldable pub newest_first : RuleEvaluation → RuleEvaluation → Bool
newest_first a b =
    ltb b.data_as_of a.data_as_of
    || ((a.data_as_of == b.data_as_of) && leb b.evaluated_at.instant a.evaluated_at.instant)

-- the rows of the query, turned round
unfoldable pub prior_rows : PriorQuery → ℕ → List RuleEvaluation → List RuleEvaluation
prior_rows q limit rows = reverse (take limit (sorted newest_first (keep (is_prior q) rows)))

-- `[self._evaluation_from_row(row) for row in rows]`
unfoldable pub read_evaluations : List RuleEvaluation → Result (List RuleEvaluation)
read_evaluations rows = read_all make_evaluation rows

unfoldable pub list_prior_evaluations : PriorQuery → ℕ → Exec Session (List RuleEvaluation)
list_prior_evaluations q limit = do
  raise_when (not (leb 1 limit && leb limit 100)) value_error
  require_condition q.user_id q.thesis_id q.condition_id
  rows ← gets (λ s. prior_rows q limit s.evaluations)
  lift (read_evaluations rows)
