-- ===== src/Store/Conditions/Tests.antt =====
-- The theorem on the conditions of app/database/thesis_repositories.py, at a condition that is created and then
-- given another threshold.
use stock_master.Prelude.{◌≡◌, refl, [], ◌∷◌, none, some, ok}
use stock_master.Decimal.{of_ℕ}
use stock_master.Text.{is_space, strip, is_symbol, normalize_symbol, length_within}
use stock_master.Thesis.{ThesisCondition, make_condition, condition_fits, make_thesis, thesis_fits}
use stock_master.Store.{Session, uuid4, now}
use stock_master.Store.Theses.{require_thesis, get_thesis, read_thesis, owns_thesis, update_rows}
use stock_master.Store.Theses.Timeline.{empty_session}
use stock_master.Store.Conditions.{require_condition, get_condition, read_condition, owns_condition}
use stock_master.Store.Conditions.Rows.{
  stored_condition, overflows, condition_row_fits, column, nullable, stored_change,
  changed_condition, condition_version_row,
}
use stock_master.Store.Conditions.Writes.{
  create_condition, insert_condition, add_version, same_version, ConditionUpdate, update_condition,
  write_version, write_condition, condition_hit,
}
use stock_master.Store.Conditions.Snapshots.{IsVersioned}
use stock_master.Store.Conditions.Versions.{creates, updates, Writes-IsVersioned}
use stock_master.Samples.{a_world, aapl, falls}

abbrev start : Session
start = record (empty_session a_world 0 0) { theses = aapl ∷ [] }

abbrev after : Session
after = record start {
  uuids_drawn = 1;
  conditions = falls ∷ [];
  condition_versions = condition_version_row 1000 falls ∷ [];
}

valid : make_condition falls ≡ ok falls
unfolding make_condition condition_fits length_within strip is_space
valid = refl

made : create_condition falls start ≡ (ok falls, after)
unfolding uuid4 create_condition insert_condition add_version require_thesis get_thesis read_thesis
    owns_thesis make_thesis thesis_fits is_symbol normalize_symbol strip is_space stored_condition
    overflows condition_row_fits condition_version_row same_version
made = refl

after-IsVersioned : IsVersioned after
after-IsVersioned =
    Writes-IsVersioned start after (λ d e h. refl) (creates falls falls valid made) tt

-- another threshold
abbrev change : ConditionUpdate
change = record {
  user_id = 7;
  thesis_id = 11;
  condition_id = 21;
  expected_version = 1;
  changes = record {
    name = none;
    description = none;
    kind = none;
    metric = none;
    operator = none;
    threshold = some (some (of_ℕ 3));
    consecutive_periods = none;
    enabled = none;
  };
}

abbrev later : Session
later = (update_condition change after).1

abbrev changed : ThesisCondition
changed = record falls { threshold = of_ℕ 3; version = 2; updated_at = a_world.clock 0 }

rewritten : update_condition change after ≡ (ok changed, later)
unfolding now uuid4 update_condition write_version write_condition condition_hit add_version
    require_condition get_condition read_condition owns_condition make_condition condition_fits
    length_within strip is_space overflows condition_row_fits column nullable stored_change
    changed_condition condition_version_row same_version update_rows
rewritten = refl

Writes-IsVersioned_example : IsVersioned later
Writes-IsVersioned_example =
    Writes-IsVersioned after later (λ d e h. refl) (updates change changed rewritten)
      after-IsVersioned
