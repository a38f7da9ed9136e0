-- ===== src/Store/Conditions.antt =====
-- app/database/thesis_repositories.py: the look-up and the listing of conditions. Writes
-- holds what changes them.
pub mod Rows
pub mod Snapshots
mod Tests
pub mod Versions
pub mod Writes
use stock_master.Prelude.{
  ℕ, ◌≡◌, List, Bool, true, ◌&&◌, ◌||◌, ◌==◌, leb, ltb, arith, Option, none, some, Result, ok, err,
  resource_not_found, or_raise, find?, keep,
}
use stock_master.Prelude.Order.{sorted}
use stock_master.Prelude.Reading.{read_all}
use stock_master.Prelude.Exec.{Exec, ◌>>=◌, ◌>>◌, lift, gets}
use stock_master.Event.{same_bool}
use stock_master.Store.Theses.{require_thesis}
use stock_master.Thesis.{ThesisCondition, make_condition}
use stock_master.Store.{Session}

-- `WHERE id = condition_id AND thesis_id = thesis_id AND user_id = user_id`
unfoldable pub owns_condition : ℕ → ℕ → ℕ → ThesisCondition → Bool
owns_condition user_id thesis_id condition_id c =
    (c.id == condition_id) && (c.thesis_id == thesis_id) && (c.user_id == user_id)

-- what `get_condition` makes of the row that it found; `_condition_from_row` builds the model anew
unfoldable pub read_condition : Option ThesisCondition → Result (Option ThesisCondition)
read_condition none = ok none
read_condition (some row) = elim (make_condition row) [ ok c ↦ ok (some c) | err e ↦ err e ]

unfoldable pub get_condition : ℕ → ℕ → ℕ → Exec Session (Option ThesisCondition)
get_condition user_id thesis_id condition_id s =
    (read_condition (find? (owns_condition user_id thesis_id condition_id) s.conditions), s)

unfoldable pub require_condition : ℕ → ℕ → ℕ → Exec Session ThesisCondition
require_condition user_id thesis_id condition_id = do
  found ← get_condition user_id thesis_id condition_id
  lift (or_raise found resource_not_found)

pub require_condition-state :
    (user_id thesis_id condition_id : ℕ) (s : Session)
    → (require_condition user_id thesis_id condition_id s).1 ≡ s
unfolding require_condition get_condition read_condition
require_condition-state user_id thesis_id condition_id s = ground arith

-- `WHERE thesis_id AND user_id`, and `enabled IS ...` when it is given
unfoldable pub is_listed : ℕ → ℕ → Option Bool → ThesisCondition → Bool
is_listed user_id thesis_id none c = (c.thesis_id == thesis_id) && (c.user_id == user_id)
is_listed user_id thesis_id (some enabled) c =
    (c.thesis_id == thesis_id) && (c.user_id == user_id) && same_bool c.enabled enabled

-- `ORDER BY created_at, id`
unfoldable pub created_before : ThesisCondition → ThesisCondition → Bool
created_before a b =
    ltb a.created_at.instant b.created_at.instant
    || ((a.created_at.instant == b.created_at.instant) && leb a.id b.id)

unfoldable pub condition_rows : ℕ → ℕ → Option Bool → List ThesisCondition → List ThesisCondition
condition_rows user_id thesis_id enabled rows =
    sorted created_before (keep (is_listed user_id thesis_id enabled) rows)

-- `[self._condition_from_row(row) for row in result.scalars()]`
unfoldable pub read_conditions : List ThesisCondition → Result (List ThesisCondition)
read_conditions rows = read_all make_condition rows

unfoldable pub list_conditions : ℕ → ℕ → Option Bool → Exec Session (List ThesisCondition)
list_conditions user_id thesis_id enabled = do
  require_thesis user_id thesis_id
  rows ← gets (λ s. condition_rows user_id thesis_id enabled s.conditions)
  lift (read_conditions rows)

unfoldable pub list_enabled_conditions : ℕ → ℕ → Exec Session (List ThesisCondition)
list_enabled_conditions user_id thesis_id = list_conditions user_id thesis_id (some true)
