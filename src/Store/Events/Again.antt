-- ===== src/Store/Events/Again.antt =====
-- Saving an event of an evaluation again: `save_event_with_evidence` of
-- app/database/thesis_repositories.py makes a second run of one period harmless.
use stock_master.Prelude.{
  ℕ, ◌≡◌, refl, sym, ap, ◌∙◌, subst, List, [], ◌∷◌, ◌++◌, Bool, ◌==◌, none, some, ok,
  resource_not_found, repository_conflict, or_raise, find?, find?-append_new, Bool-cases,
  Option-cases, inl, inr, arith,
}
use stock_master.Prelude.Exec.{bind-After, bind-eq-ok, lift}
use stock_master.Event.{DomainEvent, EventEvidence, is_some}
use stock_master.Store.{Session}
use stock_master.Store.Events.Checks.{validate_event_relationship, validate_evidence}
use stock_master.Store.Events.{
  get_rule_evaluation, get_event, get_event_by_evaluation, list_event_evidence, insert_evidence,
  insert_event, existing_event, put_event, save_event_with_evidence,
}
use stock_master.Store.Events.Keeps.{existing_event-Keeps, insert_evidence-Keeps}

-- An event of the evaluation.
abbrev is_of : DomainEvent → DomainEvent → Bool
is_of event r = r.evaluation_id == event.evaluation_id

abbrev Present : DomainEvent → Session → Type 0
Present event s = (row : DomainEvent) × (find? (is_of event) s.events ≡ some row)

module _ (event : DomainEvent) (items : List EventEvidence) (s : Session) where
  insert_event-Present :
      (r : DomainEvent × List EventEvidence)
      → find? (is_of event) s.events ≡ none
      → (insert_event event items s).0 ≡ ok r
      → Present event (insert_event event items s).1
  unfolding insert_event
  insert_event-Present r absent run =
      elim (Bool-cases (is_some (find? (λ (e : DomainEvent). e.id == event.id) s.events))) [
        | inl taken ↦ absurd (ground (arith, taken, run))
        | inr free ↦
            let s1 = record s { events = s.events ++ event ∷ [] } in
            let (_, events) = insert_evidence-Keeps items s1 in
            let here : Present event (insert_evidence items s1).1 = (
              event,
              ap (find? (is_of event)) events
                  ∙ find?-append_new (is_of event) s.events event absent (ground arith),
            ) in
            rw free (bind-After (Present event) (insert_evidence items) _ s1 here λ _ _. here)
      ]

  put_event-Present :
      (r : DomainEvent × List EventEvidence)
      → (put_event event items s).0 ≡ ok r
      → Present event (put_event event items s).1
  unfolding put_event
  put_event-Present r run = elim (Option-cases (find? (is_of event) s.events)) [
    | inl absent ↦
        let same : put_event event items s ≡ insert_event event items s = rw absent in
        subst (Present event) (sym (ap (λ p. p.1) same))
          (insert_event-Present r absent (sym (ap (λ p. p.0) same) ∙ run))
    | inr (old, present) ↦
        let same : put_event event items s ≡ existing_event event s = rw present in
        let (_, events) = existing_event-Keeps event s in
        subst (Present event) (sym (ap (λ p. p.1) same))
          (old, ap (find? (is_of event)) events ∙ present)
  ]

  save_event-Present :
      (r : DomainEvent × List EventEvidence) (s' : Session)
      → save_event_with_evidence event items s ≡ (ok r, s')
      → Present event s'
  unfolding save_event_with_evidence get_rule_evaluation
  save_event-Present r s' h =
      let (found, _, k1) =
        bind-eq-ok (get_rule_evaluation event.user_id event.evaluation_id) _ s h in
      let (e, _, k2) = bind-eq-ok (lift (or_raise found resource_not_found)) _ s k1 in
      let (_, _, k3) = bind-eq-ok (lift (validate_event_relationship event e)) _ s k2 in
      let (_, _, k4) = bind-eq-ok (lift (validate_evidence [] event items)) _ s k3 in
      subst (Present event) (ap (λ p. p.1) k4) (put_event-Present r (ap (λ p. p.0) k4))

list_event_evidence-state :
    (user_id event_id : ℕ) (s : Session) → (list_event_evidence user_id event_id s).1 ≡ s
unfolding list_event_evidence get_event
list_event_evidence-state user_id event_id s =
    bind-After (λ z. z ≡ s) (get_event user_id event_id) _ s refl
      λ found _.
        bind-After (λ z. z ≡ s) (lift (or_raise found resource_not_found)) _ s refl λ _ _. refl

existing_event-state : (event : DomainEvent) (s : Session) → (existing_event event s).1 ≡ s
unfolding existing_event get_event_by_evaluation
existing_event-state event s =
    bind-After (λ z. z ≡ s) (get_event_by_evaluation event.user_id event.evaluation_id) _ s refl
      λ found _.
        bind-After (λ z. z ≡ s) (lift (or_raise found repository_conflict)) _ s refl
          λ existing _.
            bind-After (λ z. z ≡ s) (list_event_evidence event.user_id existing.id) _ s
              (list_event_evidence-state event.user_id existing.id s)
              λ _ _. list_event_evidence-state event.user_id existing.id s

put_event-state :
    (f : DomainEvent) (items : List EventEvidence) (s : Session)
    → Present f s
    → (put_event f items s).1 ≡ s
unfolding put_event
put_event-state f items s (row, present) = rw present (existing_event-state f s)

-- Once an event of an evaluation has been saved, saving an event of the same evaluation again, with
-- whatever else it says and whatever evidence, changes nothing, whether it returns or raises.
pub save_event_with_evidence-again :
    (event f : DomainEvent) (items others : List EventEvidence) (s s' : Session)
    (r : DomainEvent × List EventEvidence)
    → save_event_with_evidence event items s ≡ (ok r, s')
    → f.evaluation_id ≡ event.evaluation_id
    → (save_event_with_evidence f others s').1 ≡ s'
unfolding save_event_with_evidence get_rule_evaluation
save_event_with_evidence-again event f items others s s' r h same =
    let (row, present) = save_event-Present event items s r s' h in
    let here : Present f s' = (
      row,
      subst (λ n. find? (λ (x : DomainEvent). x.evaluation_id == n) s'.events ≡ some row) (sym same)
          present,
    ) in
    bind-After (λ z. z ≡ s') (get_rule_evaluation f.user_id f.evaluation_id) _ s' refl
      λ found _.
        bind-After (λ z. z ≡ s') (lift (or_raise found resource_not_found)) _ s' refl
          λ e _.
            bind-After (λ z. z ≡ s') (lift (validate_event_relationship f e)) _ s' refl
              λ _ _.
                bind-After (λ z. z ≡ s') (lift (validate_evidence [] f others)) _ s' refl
                  λ _ _. put_event-state f others s' here
