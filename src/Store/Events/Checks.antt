-- ===== src/Store/Events/Checks.antt =====
-- The checks of `save_event_with_evidence` of app/database/thesis_repositories.py.
use stock_master.Prelude.{
  ℕ, List, [], ◌∷◌, not, ◌==◌, Result, ok, invalid_aggregate, raise_if, text_eq, ◌>>◌,
}
use stock_master.Event.{RuleEvaluation, DomainEvent, EventEvidence}
use stock_master.Metric.{contains}

-- `_validate_event_relationship`
unfoldable pub validate_event_relationship : DomainEvent → RuleEvaluation → Result (Unit {0})
validate_event_relationship event evaluation =
    raise_if (not evaluation.matched)
      (invalid_aggregate "An event can only be created from a matched evaluation")
    >> raise_if (not (event.user_id == evaluation.user_id))
        (invalid_aggregate "Event and evaluation users do not match")
    >> raise_if (not (event.thesis_id == evaluation.thesis_id))
        (invalid_aggregate "Event and evaluation theses do not match")
    >> raise_if (not (event.condition_id == evaluation.condition_id))
        (invalid_aggregate "Event and evaluation conditions do not match")
    >> raise_if (not (text_eq event.symbol evaluation.symbol))
        (invalid_aggregate "Event and evaluation symbols do not match")
    >> raise_if (not (event.rule_version == evaluation.rule_version))
        (invalid_aggregate "Event and evaluation rule versions do not match")
    >> raise_if (not (event.occurred_on == evaluation.data_as_of))
        (invalid_aggregate "Event date must match the evaluation data date")

-- the loop of `_validate_evidence_relationships`, with the identifiers seen so far
unfoldable pub validate_evidence : List ℕ → DomainEvent → List EventEvidence → Result (Unit {0})
validate_evidence seen event [] = ok tt
validate_evidence seen event (item ∷ items) =
    raise_if (contains item.id seen) (invalid_aggregate "Evidence IDs must be unique")
    >> raise_if (not (item.event_id == event.id))
        (invalid_aggregate "Evidence is not associated with the event")
    >> raise_if (not (item.user_id == event.user_id))
        (invalid_aggregate "Evidence is not associated with the event owner")
    >> validate_evidence (item.id ∷ seen) event items
