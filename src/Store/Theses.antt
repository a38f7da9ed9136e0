-- ===== src/Store/Theses.antt =====
-- app/database/thesis_repositories.py: the theses and the history of their status.
pub mod Conflict
pub mod Ledger
pub mod Lifecycle
pub mod Replay
mod Tests
pub mod Timeline
use stock_master.Prelude.{
  ℕ, ◌+◌, List, [], ◌∷◌, ◌++◌, map, Bool, true, false, ◌&&◌, ◌||◌, not, ◌==◌, leb, Option, none,
  some, Text, Result, ok, err, invalid_aggregate, resource_not_found, repository_conflict,
  integrity_error, data_error, ltb, length, raise_if, or_raise, if◌then◌else◌, find?, keep,
}
use stock_master.Prelude.Order.{sorted}
use stock_master.Prelude.Exec.{Exec, ◌>>=◌, ◌>>◌, pure, raise, lift, gets, modify, raise_when}
use stock_master.Thesis.{
  DateTime, ThesisStatus, active, challenged, invalidated, archived, same_status, InvestmentThesis,
  ThesisStatusChange, make_thesis,
}
use stock_master.Event.{DomainEvent}
use stock_master.Store.{Session, uuid4, now}

-- `WHERE id = thesis_id AND user_id = user_id`
unfoldable pub owns_thesis : ℕ → ℕ → InvestmentThesis → Bool
owns_thesis user_id thesis_id t = (t.id == thesis_id) && (t.user_id == user_id)

unfoldable pub create_thesis : InvestmentThesis → Exec Session InvestmentThesis
create_thesis thesis = do
  existing ← gets (λ s. find? (λ (t : InvestmentThesis). t.id == thesis.id) s.theses)
  raise_when (elim existing [ none ↦ false | some t ↦ true ]) repository_conflict
  modify (λ s. record s { theses = s.theses ++ thesis ∷ [] })
  pure thesis

-- what `get_thesis` makes of the row that it found; `_thesis_from_row` builds the model anew
unfoldable pub read_thesis : Option InvestmentThesis → Result (Option InvestmentThesis)
read_thesis none = ok none
read_thesis (some row) = elim (make_thesis row) [ ok t ↦ ok (some t) | err e ↦ err e ]

unfoldable pub get_thesis : ℕ → ℕ → Exec Session (Option InvestmentThesis)
get_thesis user_id thesis_id s = (read_thesis (find? (owns_thesis user_id thesis_id) s.theses), s)

unfoldable pub require_thesis : ℕ → ℕ → Exec Session InvestmentThesis
require_thesis user_id thesis_id = do
  found ← get_thesis user_id thesis_id
  lift (or_raise found resource_not_found)

-- the targets of `allowed[current]`
unfoldable pub allowed : ThesisStatus → List ThesisStatus
allowed active = challenged ∷ invalidated ∷ archived ∷ []
allowed challenged = active ∷ invalidated ∷ archived ∷ []
allowed invalidated = archived ∷ []
allowed archived = []

-- `target in statuses`
unfoldable pub has_status : ThesisStatus → List ThesisStatus → Bool
has_status target [] = false
has_status target (s ∷ ss) = same_status target s || has_status target ss

-- `_validate_status_transition`
unfoldable pub validate_status_transition : ThesisStatus → ThesisStatus → Result (Unit {0})
validate_status_transition current target =
    raise_if (not (has_status target (allowed current)))
      (invalid_aggregate "Invalid thesis status transition")

-- the arguments of `update_thesis`
pub record ThesisUpdate : Type 0 where
  pub user_id : ℕ
  pub thesis_id : ℕ
  pub expected_version : ℕ
  pub title : Option Text
  pub description : Option Text
  pub status : Option ThesisStatus
  pub reason : Option Text
  pub triggering_event_id : Option ℕ

-- `x if x is not None else y`
abbrev pub or_else : {A : Type 0} → Option A → A → A
or_else none y = y
or_else (some x) y = x

-- the row after `UPDATE ... SET`
unfoldable pub updated_row : ThesisUpdate → DateTime → InvestmentThesis → InvestmentThesis
updated_row u instant row = record row {
  title = or_else u.title row.title;
  description = or_else u.description row.description;
  status = or_else u.status row.status;
  version = u.expected_version + 1;
  updated_at = instant;
}

-- `WHERE id AND user_id AND version = expected_version`
unfoldable pub hit_by : ThesisUpdate → InvestmentThesis → Bool
hit_by u row = owns_thesis u.user_id u.thesis_id row && (row.version == u.expected_version)

-- an UPDATE of every row that the clause hits
unfoldable pub update_rows : {A : Type 0} → (A → Bool) → (A → A) → List A → List A
update_rows hit change [] = []
update_rows hit change (r ∷ rs) =
    elim (hit r) [ true ↦ change r | false ↦ r ] ∷ update_rows hit change rs

-- `status is not None and status is not current.status`
unfoldable pub changes_status : ThesisUpdate → InvestmentThesis → Bool
changes_status u current = elim u.status [
  | none ↦ false
  | some target ↦ not (same_status target current.status)
]

-- the test of the transition, when there is one
unfoldable pub check_transition : ThesisUpdate → InvestmentThesis → Result (Unit {0})
check_transition u current =
    if changes_status u current
    then validate_status_transition current.status (or_else u.status current.status)
    else ok tt

-- a text does not fit a column of a given width
unfoldable pub too_long : ℕ → Option Text → Bool
too_long width none = false
too_long width (some text) = ltb width (length text)

-- the foreign key of `triggering_event_id`
unfoldable pub event_exists : ℕ → Option ℕ → List DomainEvent → Bool
event_exists user_id none events = true
event_exists user_id (some id) events =
    elim (find? (λ (e : DomainEvent). (e.id == id) && (e.user_id == user_id)) events) [
      | none ↦ false
      | some e ↦ true
    ]

-- the row of `thesis_status_history`, added when the status changes
unfoldable pub record_change : ThesisUpdate → InvestmentThesis → DateTime → Exec Session Unit
record_change u current instant = do
  reason ← lift (or_raise u.reason (invalid_aggregate "Status changes require a reason"))
  id ← uuid4
  known ← gets (λ s. event_exists u.user_id u.triggering_event_id s.events)
  raise_when (too_long 500 (some reason)) data_error
  raise_when (not known) integrity_error
  modify (λ s. record s {
    status_history =
        s.status_history
        ++ (record {
          id = id;
          thesis_id = u.thesis_id;
          user_id = u.user_id;
          from_status = current.status;
          to_status = or_else u.status current.status;
          reason = reason;
          triggering_event_id = u.triggering_event_id;
          changed_at = instant;
        })
          ∷ [];
  })

unfoldable pub log_change : ThesisUpdate → InvestmentThesis → DateTime → Exec Session Unit
log_change u current instant =
    if changes_status u current then record_change u current instant else pure tt

unfoldable pub update_thesis : ThesisUpdate → Exec Session InvestmentThesis
update_thesis u = do
  current ← require_thesis u.user_id u.thesis_id
  raise_when (not (current.version == u.expected_version)) repository_conflict
  lift (check_transition u current)
  instant ← now
  found ← gets (λ s. find? (hit_by u) s.theses)
  row ← lift (or_raise found repository_conflict)
  raise_when (too_long 200 u.title) data_error
  raise_when (not (leb row.created_at.instant instant.instant)) integrity_error
  modify (λ s. record s { theses = update_rows (hit_by u) (updated_row u instant) s.theses })
  log_change u current instant
  lift (make_thesis (updated_row u instant row))
