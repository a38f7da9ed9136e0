-- ===== src/Store/Listing.antt =====
-- app/database/thesis_repositories.py: the listings with pages, and the feedback on events.
pub mod Pages
mod Tests
use stock_master.Prelude.{
  ℕ, Text, List, [], ◌∷◌, ◌++◌, Bool, true, false, ◌&&◌, ◌||◌, not, ◌==◌, leb, ltb, length, Option,
  none, some, Result, ok, err, value_error, resource_not_found, integrity_error, data_error,
  validation_error, or_raise, find?, keep, take, drop, text_eq, if◌then◌else◌,
}
use stock_master.Prelude.Order.{sorted}
use stock_master.Prelude.Reading.{read_all}
use stock_master.Prelude.Exec.{Exec, ◌>>=◌, ◌>>◌, pure, lift, gets, modify, raise_when}
use stock_master.Text.{strip, upper, length_within}
use stock_master.Thesis.{
  InvestmentThesis, ThesisStatus, ThesisStatusChange, same_status, make_thesis, optional_within,
  strip_optional,
}
use stock_master.Event.{
  DomainEvent, EventFeedback, EventSeverity, info, warning, critical, EventStatus, open_event,
  acknowledged, resolved, dismissed, make_event, is_empty, is_some,
}
use stock_master.Store.{Session}
use stock_master.Store.Theses.{require_thesis, update_rows}
use stock_master.Store.Events.{get_event}

-- `_validate_pagination`; an offset is never negative here
unfoldable pub validate_pagination : ℕ → Result (Unit {0})
validate_pagination limit = if leb 1 limit && leb limit 500 then ok tt else err value_error

-- `LIMIT` and `OFFSET`
unfoldable pub page : {A : Type 0} → ℕ → ℕ → List A → List A
page limit offset rows = take limit (drop offset rows)

-- the symbol of a filter, when it is given
unfoldable pub filter_symbol : Option Text → Result (Option Text)
filter_symbol none = ok none
filter_symbol (some symbol) =
    let normalized = upper (strip symbol) in
    if is_empty normalized then err value_error else ok (some normalized)

-- a clause that is added when its argument is given
unfoldable pub when_given : {A : Type 0} → Option A → (A → Bool) → Bool
when_given none test = true
when_given (some a) test = test a

unfoldable pub is_wanted : ℕ → Option Text → Option ThesisStatus → InvestmentThesis → Bool
is_wanted user_id symbol status t =
    (t.user_id == user_id)
    && when_given symbol (λ s. text_eq t.symbol s)
    && when_given status (λ s. same_status t.status s)

-- `ORDER BY updated_at DESC, id`
unfoldable pub latest_thesis_first : InvestmentThesis → InvestmentThesis → Bool
latest_thesis_first a b =
    ltb b.updated_at.instant a.updated_at.instant
    || ((a.updated_at.instant == b.updated_at.instant) && leb a.id b.id)

unfoldable pub list_theses :
    ℕ → Option Text → Option ThesisStatus → ℕ → ℕ → Exec Session (List InvestmentThesis)
list_theses user_id symbol status limit offset = do
  lift (validate_pagination limit)
  clean ← lift (filter_symbol symbol)
  rows ← gets (λ s. sorted latest_thesis_first (keep (is_wanted user_id clean status) s.theses))
  lift (read_all make_thesis (page limit offset rows))

-- the arguments of `list_events`, but for the page
pub record EventQuery : Type 0 where
  pub user_id : ℕ
  pub thesis_id : Option ℕ
  pub symbol : Option Text
  pub severity : Option EventSeverity
  pub status : Option EventStatus
  pub occurred_from : Option ℕ
  pub occurred_to : Option ℕ

abbrev severity_index : EventSeverity → ℕ
severity_index info = 0
severity_index warning = 1
severity_index critical = 2

abbrev event_status_index : EventStatus → ℕ
event_status_index open_event = 0
event_status_index acknowledged = 1
event_status_index resolved = 2
event_status_index dismissed = 3

unfoldable pub is_asked : EventQuery → Option Text → DomainEvent → Bool
is_asked q symbol e =
    (e.user_id == q.user_id)
    && when_given q.thesis_id (λ id. e.thesis_id == id)
    && when_given symbol (λ s. text_eq e.symbol s)
    && when_given q.severity (λ s. severity_index e.severity == severity_index s)
    && when_given q.status (λ s. event_status_index e.status == event_status_index s)
    && when_given q.occurred_from (λ d. leb d e.occurred_on)
    && when_given q.occurred_to (λ d. leb e.occurred_on d)

-- `occurred_from > occurred_to`, when both are given
unfoldable pub reversed_range : EventQuery → Bool
reversed_range q =
    when_given q.occurred_from
      (λ from. when_given q.occurred_to (λ to. ltb to from) && is_some q.occurred_to)
    && is_some q.occurred_from

-- `ORDER BY occurred_on DESC, detected_at DESC, id`
unfoldable pub latest_event_first : DomainEvent → DomainEvent → Bool
latest_event_first a b =
    ltb b.occurred_on a.occurred_on
    || ((a.occurred_on == b.occurred_on)
        && (ltb b.detected_at.instant a.detected_at.instant
            || ((a.detected_at.instant == b.detected_at.instant) && leb a.id b.id)))

unfoldable pub list_events : EventQuery → ℕ → ℕ → Exec Session (List DomainEvent)
list_events q limit offset = do
  lift (validate_pagination limit)
  clean ← lift (filter_symbol q.symbol)
  raise_when (reversed_range q) value_error
  rows ← gets (λ s. sorted latest_event_first (keep (is_asked q clean) s.events))
  lift (read_all make_event (page limit offset rows))

-- `ThesisStatusChange(...)`
unfoldable pub make_status_change : ThesisStatusChange → Result ThesisStatusChange
make_status_change c =
    let clean = record c { reason = strip c.reason } in
    if length_within 1 500 clean.reason then ok clean else err validation_error

-- `ORDER BY changed_at, id`
unfoldable pub changed_before : ThesisStatusChange → ThesisStatusChange → Bool
changed_before a b =
    ltb a.changed_at.instant b.changed_at.instant
    || ((a.changed_at.instant == b.changed_at.instant) && leb a.id b.id)

unfoldable pub list_status_history : ℕ → ℕ → Exec Session (List ThesisStatusChange)
list_status_history user_id thesis_id = do
  require_thesis user_id thesis_id
  rows ← gets (λ s.
      keep (λ (c : ThesisStatusChange). (c.thesis_id == thesis_id) && (c.user_id == user_id))
        s.status_history)
  lift (read_all make_status_change (sorted changed_before rows))

-- `EventFeedback(...)`
unfoldable pub make_feedback : EventFeedback → Result EventFeedback
make_feedback f =
    let clean = record f { comment = strip_optional f.comment } in
    if optional_within 0 2000 clean.comment then ok clean else err validation_error

unfoldable pub save_feedback : EventFeedback → Exec Session EventFeedback
save_feedback feedback = do
  found ← get_event feedback.user_id feedback.event_id
  lift (or_raise found resource_not_found)
  taken ← gets (λ s. is_some (find? (λ (f : EventFeedback). f.id == feedback.id) s.feedback))
  raise_when taken integrity_error
  modify (λ s. record s { feedback = s.feedback ++ feedback ∷ [] })
  pure feedback

-- `ORDER BY created_at DESC, id DESC`
unfoldable pub latest_feedback_first : EventFeedback → EventFeedback → Bool
latest_feedback_first a b =
    ltb b.created_at.instant a.created_at.instant
    || ((a.created_at.instant == b.created_at.instant) && leb b.id a.id)

unfoldable pub list_feedback_history : ℕ → ℕ → ℕ → ℕ → Exec Session (List EventFeedback)
list_feedback_history user_id event_id limit offset = do
  lift (validate_pagination limit)
  found ← get_event user_id event_id
  lift (or_raise found resource_not_found)
  rows ← gets (λ s.
      sorted latest_feedback_first (
        keep (λ (f : EventFeedback). (f.event_id == event_id) && (f.user_id == user_id))
          s.feedback))
  lift (read_all make_feedback (page limit offset rows))

-- `history[0] if history else None`
unfoldable pub first_feedback : List EventFeedback → Option EventFeedback
first_feedback [] = none
first_feedback (f ∷ fs) = some f

unfoldable pub get_feedback : ℕ → ℕ → Exec Session (Option EventFeedback)
get_feedback user_id event_id = do
  history ← list_feedback_history user_id event_id 1 0
  pure (first_feedback history)

-- the UPDATE of the status of an owned event
unfoldable pub update_event_status : ℕ → ℕ → EventStatus → Exec Session DomainEvent
update_event_status user_id event_id status = do
  let hit = λ (e : DomainEvent). (e.id == event_id) && (e.user_id == user_id)
  found ← gets (λ s. find? hit s.events)
  row ← lift (or_raise found resource_not_found)
  modify (λ s. record s { events = update_rows hit (λ e. record e { status = status }) s.events })
  lift (make_event (record row { status = status }))
