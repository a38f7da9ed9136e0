-- ===== src/Store/Conditions/Writes.antt =====
-- app/database/thesis_repositories.py: the creation and the update of conditions, with the snapshot of every
-- version that the table thesis_condition_versions keeps.

use stock_master.Prelude.{
  ℕ, ◌+◌, [], ◌∷◌, ◌++◌, Bool, ◌&&◌, not, ◌==◌, repository_conflict, integrity_error, data_error,
  or_raise, find?,
}
use stock_master.Prelude.Exec.{Exec, ◌>>=◌, ◌>>◌, pure, lift, gets, modify, raise_when}
use stock_master.Thesis.{DateTime, ThesisCondition, make_condition}
use stock_master.Event.{is_some}
use stock_master.Store.{Session, ThesisConditionVersion, uuid4, now}
use stock_master.Store.Theses.{require_thesis, update_rows}
use stock_master.Store.Conditions.{owns_condition, require_condition}
use stock_master.Store.Conditions.Rows.{
  condition_version_row, stored_condition, ConditionChanges, changed_condition,
}

-- the unique key `thesis_condition_version_identity`
unfoldable pub same_version : ThesisConditionVersion → ThesisConditionVersion → Bool
same_version a b = (a.condition_id == b.condition_id) && (a.version == b.version)

-- the snapshot of a version, whose threshold goes through its column
unfoldable pub add_version : ThesisCondition → Exec Session Unit
add_version c = do
  id ← uuid4
  stored ← gets (λ s. s.world.numeric c.threshold)
  threshold ← lift (or_raise stored data_error)
  let row = condition_version_row id (record c { threshold = threshold })
  taken ← gets (λ s. is_some (find? (same_version row) s.condition_versions))
  raise_when taken integrity_error
  modify (λ s. record s { condition_versions = s.condition_versions ++ row ∷ [] })

-- `INSERT ... ON CONFLICT DO NOTHING` and the snapshot
unfoldable pub insert_condition : ThesisCondition → Exec Session ThesisCondition
insert_condition condition = do
  stored ← gets (λ s. stored_condition s.world condition)
  row ← lift stored
  taken ← gets (λ s. is_some (find? (λ (c : ThesisCondition). c.id == condition.id) s.conditions))
  raise_when taken repository_conflict
  modify (λ s. record s { conditions = s.conditions ++ row ∷ [] })
  add_version condition
  pure condition

unfoldable pub create_condition : ThesisCondition → Exec Session ThesisCondition
create_condition condition = do
  require_thesis condition.user_id condition.thesis_id
  insert_condition condition

-- the arguments of `update_condition`
pub record ConditionUpdate : Type 0 where
  pub user_id : ℕ
  pub thesis_id : ℕ
  pub condition_id : ℕ
  pub expected_version : ℕ
  pub changes : ConditionChanges

-- `WHERE id AND thesis_id AND user_id AND version = expected_version`
unfoldable pub condition_hit : ConditionUpdate → ThesisCondition → Bool
condition_hit u row =
    owns_condition u.user_id u.thesis_id u.condition_id row && (row.version == u.expected_version)

-- the UPDATE of the row that was found, which has the primary key
unfoldable pub write_condition : ConditionUpdate → DateTime → Exec Session ThesisCondition
write_condition u instant = do
  found ← gets (λ s. find? (condition_hit u) s.conditions)
  row ← lift (or_raise found repository_conflict)
  changed ← gets (λ s. changed_condition s.world u.changes (u.expected_version + 1) instant row)
  new ← lift changed
  modify (λ s. record s { conditions = update_rows (condition_hit u) (λ r. new) s.conditions })
  pure new

-- the steps of `update_condition` with the condition that was read
unfoldable pub write_version : ConditionUpdate → ThesisCondition → Exec Session ThesisCondition
write_version u current = do
  raise_when (not (current.version == u.expected_version)) repository_conflict
  instant ← now
  row ← write_condition u instant
  updated ← lift (make_condition row)
  add_version updated
  pure updated

unfoldable pub update_condition : ConditionUpdate → Exec Session ThesisCondition
update_condition u = do
  current ← require_condition u.user_id u.thesis_id u.condition_id
  write_version u current
