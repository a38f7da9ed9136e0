-- ===== src/Store/Theses/Tests.antt =====
-- The theorems on the theses of app/database/thesis_repositories.py, at a session with one thesis that
-- is challenged and then archived.
use mathlib.Core.List.{Memᴰ}
use stock_master.Prelude.{ℕ, ◌≡◌, refl, All, none, some, ok, err, codes, repository_conflict, arith}
use stock_master.Thesis.{
  InvestmentThesis, ThesisStatus, challenged, archived, make_thesis, thesis_fits,
}
use stock_master.Text.{is_symbol, normalize_symbol, is_space}
use stock_master.Store.{Session, now, uuid4}
use stock_master.Store.Theses.{
  ThesisUpdate, create_thesis, update_thesis, require_thesis, get_thesis, read_thesis, owns_thesis,
  hit_by, updated_row, update_rows, changes_status, check_transition, validate_status_transition,
  has_status, allowed, log_change, record_change, event_exists, too_long,
}
use stock_master.Store.Theses.Replay.{IsLedger}
use stock_master.Store.Theses.Timeline.{
  empty_session, create, update, Steps, stay, then, Advances, history_replays_to_status,
  theses_only_advance,
}
use stock_master.Store.Theses.Conflict.{updates_conflict}
use stock_master.Samples.{a_world, day, aapl}

-- a change of the status of the sample thesis
abbrev change_to : ThesisStatus → ℕ → ThesisUpdate
change_to status version = record {
  user_id = 7;
  thesis_id = 11;
  expected_version = version;
  title = none;
  description = none;
  status = some status;
  reason = some (codes "Margins fall");
  triggering_event_id = none;
}

abbrev new_session : Session
new_session = empty_session a_world 0 0

abbrev with_aapl : Session
with_aapl = (create_thesis aapl new_session).1

abbrev after_challenge : Session
after_challenge = (update_thesis (change_to challenged 1) with_aapl).1

abbrev challenged_aapl : InvestmentThesis
challenged_aapl = record aapl { status = challenged; version = 2; updated_at = day 300 }

created : create_thesis aapl new_session ≡ (ok aapl, with_aapl)
unfolding create_thesis
created = refl

updated : update_thesis (change_to challenged 1) with_aapl ≡ (ok challenged_aapl, after_challenge)
unfolding create_thesis update_thesis require_thesis get_thesis read_thesis make_thesis thesis_fits
    is_symbol owns_thesis hit_by updated_row update_rows changes_status check_transition
    validate_status_transition has_status allowed log_change record_change event_exists now uuid4
    normalize_symbol is_space too_long
updated = refl

steps : Steps new_session after_challenge
steps =
    then (then stay (create aapl aapl created))
      (update (change_to challenged 1) challenged_aapl updated)

with_aapl-IsLedger : IsLedger with_aapl
with_aapl-IsLedger =
    history_replays_to_status a_world 0 0 with_aapl (then stay (create aapl aapl created))

history_replays_to_status_example : IsLedger after_challenge
history_replays_to_status_example = history_replays_to_status a_world 0 0 after_challenge steps

theses_only_advance_example :
    All
      (λ a. (b : InvestmentThesis) × Memᴰ b after_challenge.theses × Advances a b)
      with_aapl.theses
theses_only_advance_example =
    theses_only_advance with_aapl after_challenge
      (then stay (update (change_to challenged 1) challenged_aapl updated)) with_aapl-IsLedger

updates_conflict_example :
    update_thesis (change_to archived 1) after_challenge
    ≡ (err repository_conflict, after_challenge)
updates_conflict_example =
    updates_conflict (change_to challenged 1) (change_to archived 1) with_aapl after_challenge
      challenged_aapl with_aapl-IsLedger updated refl refl (λ e. absurd (omega (arith, e)))
