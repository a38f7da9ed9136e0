-- ===== src/Store/Conditions/Rows.antt =====
-- app/database/thesis_repositories.py and app/database/domain_tables.py: the rows of conditions and of their
-- versions that the statements store.
use stock_master.Prelude.{
  ℕ, ◌^◌, Text, Bool, ◌&&◌, ◌||◌, not, leb, ltb, length, Option, none, some, Result, ok, err,
  integrity_error, data_error, raise_if, if◌then◌else◌, ◌>>=◌, ◌>>◌,
}
use stock_master.Decimal.{Decimal}
use stock_master.Thesis.{DateTime, ThesisCondition, ConditionKind, MetricCode, ComparisonOperator}
use stock_master.Store.{World, ThesisConditionVersion}

-- `_condition_version_row`, with the identifier that is drawn for it
unfoldable pub condition_version_row : ℕ → ThesisCondition → ThesisConditionVersion
condition_version_row id c = record {
  id = id;
  condition_id = c.id;
  thesis_id = c.thesis_id;
  user_id = c.user_id;
  version = c.version;
  name = c.name;
  description = c.description;
  kind = c.kind;
  metric = c.metric;
  operator = c.operator;
  threshold = c.threshold;
  consecutive_periods = c.consecutive_periods;
  enabled = c.enabled;
  created_at = c.updated_at;
}

-- a value that its columns cannot hold: a long name, or an `Integer` of more than 32 bits
unfoldable pub overflows : ThesisCondition → Bool
overflows c =
    ltb 200 (length c.name) || leb (2 ^ 31) c.consecutive_periods || leb (2 ^ 31) c.version

-- the CHECK constraints of `thesis_conditions`
unfoldable pub condition_row_fits : ThesisCondition → Bool
condition_row_fits c =
    (leb 1 c.consecutive_periods && leb c.consecutive_periods 12)
    && leb 1 c.version
    && leb c.created_at.instant c.updated_at.instant

-- the row that the columns store of a condition
unfoldable pub stored_condition : World → ThesisCondition → Result ThesisCondition
stored_condition world c = elim (world.numeric c.threshold) [
  | none ↦ err data_error
  | some threshold ↦
      if overflows c
      then err data_error
      else if condition_row_fits c
      then ok (record c { threshold = threshold })
      else err integrity_error
]

-- `changes`: a field that is missing, or its new value, which may be None
pub record ConditionChanges : Type 0 where
  pub name : Option (Option Text)
  pub description : Option (Option Text)
  pub kind : Option (Option ConditionKind)
  pub metric : Option (Option MetricCode)
  pub operator : Option (Option ComparisonOperator)
  pub threshold : Option (Option Decimal)
  pub consecutive_periods : Option (Option ℕ)
  pub enabled : Option (Option Bool)

-- the value of a column that is NOT NULL
unfoldable pub column : {A : Type 0} → Option (Option A) → A → Result A
column none old = ok old
column (some none) old = err integrity_error
column (some (some value)) old = ok value

-- the value of a column that may be NULL
unfoldable pub nullable : {A : Type 0} → Option (Option A) → Option A → Option A
nullable none old = old
nullable (some value) old = value

-- what the column of the threshold stores of a change
unfoldable pub stored_change : World → Option (Option Decimal) → Result (Option (Option Decimal))
stored_change world (some (some value)) = elim (world.numeric value) [
  | none ↦ err data_error
  | some stored ↦ ok (some (some stored))
]
stored_change world change = ok change

-- the values of the statement, as the columns of the row store them
unfoldable pub changed_condition :
    World → ConditionChanges → ℕ → DateTime → ThesisCondition → Result ThesisCondition
changed_condition world changes version instant row = do
  change ← stored_change world changes.threshold
  name ← column changes.name row.name
  kind ← column changes.kind row.kind
  metric ← column changes.metric row.metric
  operator ← column changes.operator row.operator
  threshold ← column change row.threshold
  consecutive_periods ← column changes.consecutive_periods row.consecutive_periods
  enabled ← column changes.enabled row.enabled
  let new = record row {
    name = name;
    description = nullable changes.description row.description;
    kind = kind;
    metric = metric;
    operator = operator;
    threshold = threshold;
    consecutive_periods = consecutive_periods;
    enabled = enabled;
    version = version;
    updated_at = instant;
  }
  raise_if (overflows new) data_error
  raise_if (not (condition_row_fits new)) integrity_error
  ok new
