-- ===== src/Store/Events.antt =====
-- app/database/thesis_repositories.py: the events, one for each matched evaluation, with their
-- evidence.
pub mod Again
pub mod Checks
pub mod Grounded
pub mod Keeps
mod Tests
use stock_master.Prelude.{
  ℕ, List, [], ◌∷◌, ◌++◌, Bool, true, false, ◌&&◌, ◌||◌, not, ◌==◌, leb, ltb, Option, none, some,
  Result, ok, err, resource_not_found, repository_conflict, integrity_error, data_error,
  invalid_aggregate, or_raise, raise_if, if◌then◌else◌, find?, keep, text_eq,
}
use stock_master.Prelude.Order.{sorted}
use stock_master.Prelude.Exec.{Exec, ◌>>=◌, ◌>>◌, pure, lift, gets, modify, raise_when}
use stock_master.Prelude.Reading.{read_all}
use stock_master.Text.{strip, lower}
use stock_master.Decimal.{Decimal}
use stock_master.Event.{
  RuleEvaluation, DomainEvent, EventEvidence, make_event, make_evidence, make_evaluation, is_some,
}
use stock_master.Metric.{contains}
use stock_master.Store.{Session, World}
use stock_master.Store.Events.Checks.{validate_event_relationship, validate_evidence}
use stock_master.Store.Evaluations.{read_evaluation}

-- `WHERE id = evaluation_id AND user_id = user_id`
unfoldable pub owns_evaluation : ℕ → ℕ → RuleEvaluation → Bool
owns_evaluation user_id evaluation_id row = (row.id == evaluation_id) && (row.user_id == user_id)

unfoldable pub get_rule_evaluation : ℕ → ℕ → Exec Session (Option RuleEvaluation)
get_rule_evaluation user_id evaluation_id s =
    (read_evaluation (find? (owns_evaluation user_id evaluation_id) s.evaluations), s)

-- `_event_from_row` builds the model anew
unfoldable pub read_event : Option DomainEvent → Result (Option DomainEvent)
read_event none = ok none
read_event (some row) = elim (make_event row) [ ok e ↦ ok (some e) | err raised ↦ err raised ]

unfoldable pub get_event : ℕ → ℕ → Exec Session (Option DomainEvent)
get_event user_id event_id s = (
  read_event (find? (λ (e : DomainEvent). (e.id == event_id) && (e.user_id == user_id)) s.events),
  s,
)

unfoldable pub get_event_by_evaluation : ℕ → ℕ → Exec Session (Option DomainEvent)
get_event_by_evaluation user_id evaluation_id s = (
  read_event (
      find? (λ (e : DomainEvent). (e.evaluation_id == evaluation_id) && (e.user_id == user_id))
        s.events),
  s,
)

-- `ORDER BY observed_at, id`
unfoldable pub observed_before : EventEvidence → EventEvidence → Bool
observed_before a b =
    ltb a.observed_at.instant b.observed_at.instant
    || ((a.observed_at.instant == b.observed_at.instant) && leb a.id b.id)

-- `[self._evidence_from_row(row) for row in rows]`
unfoldable pub read_evidence : List EventEvidence → Result (List EventEvidence)
read_evidence rows = read_all make_evidence rows

unfoldable pub list_event_evidence : ℕ → ℕ → Exec Session (List EventEvidence)
list_event_evidence user_id event_id = do
  found ← get_event user_id event_id
  lift (or_raise found resource_not_found)
  rows ← gets (λ s.
      keep (λ (e : EventEvidence). (e.event_id == event_id) && (e.user_id == user_id)) s.evidence)
  lift (read_evidence (sorted observed_before rows))

-- the rows that the table stores for a list of evidence, if their numbers fit their column
unfoldable pub stored_value : World → Option Decimal → Option (Option Decimal)
stored_value world none = some none
stored_value world (some value) = elim (world.numeric value) [
  | none ↦ none
  | some stored ↦ some (some stored)
]

unfoldable pub stored_evidence : World → List EventEvidence → Option (List EventEvidence)
stored_evidence world [] = some []
stored_evidence world (item ∷ items) =
    let others = stored_evidence world items in
    elim (stored_value world item.observed_value) [
      | none ↦ none
      | some value ↦ elim others [
        | none ↦ none
        | some rows ↦
            some (record item { source = lower (strip item.source); observed_value = value } ∷ rows)
      ]
    ]

-- an identifier of the list is taken
unfoldable pub some_taken : List EventEvidence → List EventEvidence → Bool
some_taken [] rows = false
some_taken (item ∷ items) rows =
    is_some (find? (λ (r : EventEvidence). r.id == item.id) rows) || some_taken items rows

-- `INSERT` of the evidence
unfoldable pub insert_evidence : List EventEvidence → Exec Session Unit
insert_evidence items = do
  stored ← gets (λ s. stored_evidence s.world items)
  rows ← lift (or_raise stored data_error)
  taken ← gets (λ s. some_taken items s.evidence)
  raise_when taken integrity_error
  modify (λ s. record s { evidence = s.evidence ++ rows })

-- a new event with its evidence
unfoldable pub insert_event :
    DomainEvent → List EventEvidence → Exec Session (DomainEvent × List EventEvidence)
insert_event event items = do
  taken ← gets (λ s. is_some (find? (λ (r : DomainEvent). r.id == event.id) s.events))
  raise_when taken integrity_error
  modify (λ s. record s { events = s.events ++ event ∷ [] })
  insert_evidence items
  pure (event, items)

-- the event that an earlier run saved for the evaluation, with its evidence
unfoldable pub existing_event : DomainEvent → Exec Session (DomainEvent × List EventEvidence)
existing_event event = do
  found ← get_event_by_evaluation event.user_id event.evaluation_id
  existing ← lift (or_raise found repository_conflict)
  items ← list_event_evidence event.user_id existing.id
  pure (existing, items)

-- `INSERT ... ON CONFLICT ON CONSTRAINT domain_event_evaluation_identity DO NOTHING`, then either way
unfoldable pub put_event :
    DomainEvent → List EventEvidence → Exec Session (DomainEvent × List EventEvidence)
put_event event items = do
  present ←
      gets (λ s.
        is_some (find? (λ (r : DomainEvent). r.evaluation_id == event.evaluation_id) s.events))
  if present then existing_event event else insert_event event items

unfoldable pub save_event_with_evidence :
    DomainEvent → List EventEvidence → Exec Session (DomainEvent × List EventEvidence)
save_event_with_evidence event items = do
  found ← get_rule_evaluation event.user_id event.evaluation_id
  evaluation ← lift (or_raise found resource_not_found)
  lift (validate_event_relationship event evaluation)
  lift (validate_evidence [] event items)
  put_event event items
