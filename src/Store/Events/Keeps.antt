-- ===== src/Store/Events/Keeps.antt =====
-- The steps of `save_event_with_evidence` of app/database/thesis_repositories.py that leave the
-- evaluations and the events as they are.
use stock_master.Prelude.{
  ℕ, ◌≡◌, refl, List, resource_not_found, repository_conflict, integrity_error, data_error,
  or_raise,
}
use stock_master.Prelude.Exec.{bind-After, lift, raise_when}
use stock_master.Event.{DomainEvent, EventEvidence}
use stock_master.Store.{Session}
use stock_master.Store.Events.{
  get_event, get_event_by_evaluation, list_event_evidence, stored_evidence, some_taken,
  insert_evidence, existing_event,
}

-- What a step leaves of the evaluations and the events.
abbrev pub Keeps : Session → Session → Type 0
Keeps s z = (z.evaluations ≡ s.evaluations) × (z.events ≡ s.events)

list_event_evidence-Keeps :
    (user_id event_id : ℕ) (s : Session) → Keeps s (list_event_evidence user_id event_id s).1
unfolding list_event_evidence get_event
list_event_evidence-Keeps user_id event_id s =
    bind-After (Keeps s) (get_event user_id event_id) _ s (refl, refl)
      λ found _.
        bind-After (Keeps s) (lift (or_raise found resource_not_found)) _ s (refl, refl)
          λ _ _. (refl, refl)

pub existing_event-Keeps : (event : DomainEvent) (s : Session) → Keeps s (existing_event event s).1
unfolding existing_event get_event_by_evaluation
existing_event-Keeps event s =
    bind-After (Keeps s) (get_event_by_evaluation event.user_id event.evaluation_id) _ s
      (refl, refl)
      λ found _.
        bind-After (Keeps s) (lift (or_raise found repository_conflict)) _ s (refl, refl)
          λ existing _.
            bind-After (Keeps s) (list_event_evidence event.user_id existing.id) _ s
              (list_event_evidence-Keeps event.user_id existing.id s)
              λ _ _. list_event_evidence-Keeps event.user_id existing.id s

pub insert_evidence-Keeps :
    (items : List EventEvidence) (s : Session) → Keeps s (insert_evidence items s).1
unfolding insert_evidence
insert_evidence-Keeps items s =
    bind-After (Keeps s) (lift (or_raise (stored_evidence s.world items) data_error)) _ s
      (refl, refl)
      λ rows _.
        bind-After (Keeps s) (raise_when (some_taken items s.evidence) integrity_error) _ s
          (refl, refl) λ _ _. (refl, refl)
