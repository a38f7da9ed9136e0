-- ===== src/Store/Events/Grounded.antt =====
-- Where the events of app/database/thesis_repositories.py come from.
use mathlib.Core.List.{Memᴰ}
use mathlib.Core.List.Permᴰ
use stock_master.Prelude.{
  ℕ, ◌≡◌, refl, sym, ap, ◌∙◌, subst, List, [], ◌∷◌, ◌++◌, true, false, ◌==◌, Option, none, some,
  Result, ok, err, resource_not_found, integrity_error, or_raise, find?, find?-Memᴰ, All,
  All-append, Option-cases, inl, inr, arith,
}
use stock_master.Prelude.Order.Distinct.{Distinct, Distinct-perm, Apart}
use stock_master.Prelude.Exec.{bind-After, lift, raise_when}
use stock_master.Event.{RuleEvaluation, DomainEvent, EventEvidence, make_evaluation, is_some}
use stock_master.Store.{Session}
use stock_master.Store.Evaluations.{read_evaluation}
use stock_master.Store.Events.Checks.{validate_event_relationship, validate_evidence}
use stock_master.Store.Events.{
  owns_evaluation, get_rule_evaluation, insert_evidence, insert_event, put_event,
  save_event_with_evidence,
}
use stock_master.Store.Events.Keeps.{Keeps, existing_event-Keeps, insert_evidence-Keeps}

-- The evaluation of an event is in the table, it matched, and the event is of its user, thesis,
-- condition, rule version and date.
pub record Grounded (rows : List RuleEvaluation) (event : DomainEvent) : Type 0 where
  pub evaluation : RuleEvaluation
  pub member : Memᴰ evaluation rows
  pub id : evaluation.id ≡ event.evaluation_id
  pub matched : evaluation.matched ≡ true
  pub user_id : evaluation.user_id ≡ event.user_id
  pub thesis_id : evaluation.thesis_id ≡ event.thesis_id
  pub condition_id : evaluation.condition_id ≡ event.condition_id
  pub rule_version : evaluation.rule_version ≡ event.rule_version
  pub date : evaluation.data_as_of ≡ event.occurred_on

abbrev pub evaluation_of : DomainEvent → ℕ
evaluation_of e = e.evaluation_id

-- Every event is of a matched evaluation, and no two are of one evaluation.
pub record IsEventLog (s : Session) : Type 0 where
  pub grounded : All (Grounded s.evaluations) s.events
  pub single : Distinct evaluation_of s.events

make_evaluation-fields :
    (row e : RuleEvaluation)
    → make_evaluation row ≡ ok e
    → (e.id ≡ row.id)
      × (e.matched ≡ row.matched)
      × (e.user_id ≡ row.user_id)
      × (e.thesis_id ≡ row.thesis_id)
      × (e.condition_id ≡ row.condition_id)
      × (e.rule_version ≡ row.rule_version)
      × (e.data_as_of ≡ row.data_as_of)
unfolding make_evaluation
make_evaluation-fields row e h = ground arith

model-some :
    (r : Result RuleEvaluation) (e : RuleEvaluation)
    → elim r [ ok x ↦ ok (some x) | err raised ↦ err raised ] ≡ ok (some e)
    → r ≡ ok e
model-some (err raised) e h = absurd (ground arith)
model-some (ok x) e h = ground arith

pub read_evaluation-some :
    (o : Option RuleEvaluation) (e : RuleEvaluation)
    → read_evaluation o ≡ ok (some e)
    → (row : RuleEvaluation) × (o ≡ some row) × (make_evaluation row ≡ ok e)
unfolding read_evaluation
read_evaluation-some none e h = absurd (ground arith)
read_evaluation-some (some row) e h = (row, refl, model-some (make_evaluation row) e h)

owns_evaluation-id :
    (user_id id : ℕ) (row : RuleEvaluation) → owns_evaluation user_id id row ≡ true → row.id ≡ id
unfolding owns_evaluation
owns_evaluation-id user_id id row h = ground arith

validated :
    (event : DomainEvent) (e : RuleEvaluation)
    → validate_event_relationship event e ≡ ok tt
    → (e.matched ≡ true)
      × (event.user_id ≡ e.user_id)
      × (event.thesis_id ≡ e.thesis_id)
      × (event.condition_id ≡ e.condition_id)
      × (event.rule_version ≡ e.rule_version)
      × (event.occurred_on ≡ e.data_as_of)
unfolding validate_event_relationship
validated event e h = ground arith

validated-Grounded :
    (s : Session) (event : DomainEvent) (found : Option RuleEvaluation) (e : RuleEvaluation)
    → read_evaluation (find? (owns_evaluation event.user_id event.evaluation_id) s.evaluations)
      ≡ ok found
    → or_raise found resource_not_found ≡ ok e
    → validate_event_relationship event e ≡ ok tt
    → Grounded s.evaluations event
validated-Grounded s event found e h k v =
    let present : found ≡ some e = ground arith in
    let (row, at, made) =
      read_evaluation-some (find? (owns_evaluation event.user_id event.evaluation_id) s.evaluations)
        e (h ∙ ap ok present) in
    let (member, owned) =
      find?-Memᴰ (owns_evaluation event.user_id event.evaluation_id) s.evaluations row at in
    let (_, m, user, thesis, condition, version, date) = make_evaluation-fields row e made in
    let (matched, user', thesis', condition', version', date') = validated event e v in
    record {
      evaluation = row;
      member = member;
      id = owns_evaluation-id event.user_id event.evaluation_id row owned;
      matched = sym m ∙ matched;
      user_id = sym (user' ∙ user);
      thesis_id = sym (thesis' ∙ thesis);
      condition_id = sym (condition' ∙ condition);
      rule_version = sym (version' ∙ version);
      date = sym (date' ∙ date);
    }

-- What saving an event does to the events: nothing, or one more for an evaluation that had none.
pub data EventSaved (event : DomainEvent) (s z : Session) : Type 0 where
  same_events : Keeps s z → EventSaved event s z
  one_event :
      z.evaluations ≡ s.evaluations
      → z.events ≡ s.events ++ event ∷ []
      → Grounded s.evaluations event
      → find? (λ (r : DomainEvent). r.evaluation_id == event.evaluation_id) s.events ≡ none
      → EventSaved event s z

insert_event-EventSaved :
    (event : DomainEvent) (items : List EventEvidence) (s : Session)
    → Grounded s.evaluations event
    → find? (λ (r : DomainEvent). r.evaluation_id == event.evaluation_id) s.events ≡ none
    → EventSaved event s (insert_event event items s).1
unfolding insert_event
insert_event-EventSaved event items s g absent =
    let P = EventSaved event s in
    let s1 = record s { events = s.events ++ event ∷ [] } in
    let (evaluations, events) = insert_evidence-Keeps items s1 in
    let after : P (insert_evidence items s1).1 = one_event evaluations events g absent in
    bind-After P
      (raise_when (is_some (find? (λ (r : DomainEvent). r.id == event.id) s.events))
        integrity_error)
      _ s (same_events (refl, refl))
      λ _ _. bind-After P (insert_evidence items) _ s1 after λ _ _. after

put_event-EventSaved :
    (event : DomainEvent) (items : List EventEvidence) (s : Session)
    → Grounded s.evaluations event
    → EventSaved event s (put_event event items s).1
unfolding put_event
put_event-EventSaved event items s g =
    elim (Option-cases
      (find? (λ (r : DomainEvent). r.evaluation_id == event.evaluation_id) s.events)) [
        | inl absent ↦ rw absent (insert_event-EventSaved event items s g absent)
        | inr (old, present) ↦ rw present (same_events (existing_event-Keeps event s))
      ]

save_event-EventSaved :
    (event : DomainEvent) (items : List EventEvidence) (s : Session)
    → EventSaved event s (save_event_with_evidence event items s).1
unfolding save_event_with_evidence get_rule_evaluation
save_event-EventSaved event items s =
    let P = EventSaved event s in
    let start : P s = same_events (refl, refl) in
    bind-After P (get_rule_evaluation event.user_id event.evaluation_id) _ s start λ found read.
      bind-After P (lift (or_raise found resource_not_found)) _ s start λ e given.
        bind-After P (lift (validate_event_relationship event e)) _ s start λ _ valid.
          bind-After P (lift (validate_evidence [] event items)) _ s start λ _ _.
            put_event-EventSaved event items s (validated-Grounded s event found e read given valid)

absent-Apart :
    (event : DomainEvent) (xs : List DomainEvent)
    → find? (λ (r : DomainEvent). r.evaluation_id == event.evaluation_id) xs ≡ none
    → All (Apart evaluation_of event) xs
absent-Apart event [] h = tt
absent-Apart event (x ∷ xs) h =
    let other : (x.evaluation_id == event.evaluation_id) ≡ false = ground arith in
    ((λ e. absurd (ground (arith, other, e))), absent-Apart event xs (ground (arith, other, h)))

IsEventLog-EventSaved :
    (event : DomainEvent) (s z : Session) → EventSaved event s z → IsEventLog s → IsEventLog z
IsEventLog-EventSaved event s z (same_events (evaluations, events)) l = record {
  grounded = rw (evaluations, events) l.grounded;
  single = rw events l.single;
}
IsEventLog-EventSaved event s z (one_event evaluations events g absent) l = record {
  grounded =
      rw (evaluations, events)
        (All-append (Grounded s.evaluations) s.events (event ∷ []) l.grounded (g, tt));
  single = subst (Distinct evaluation_of) (sym events) (
      Distinct-perm evaluation_of (Permᴰ.append_comm (event ∷ []) s.events)
        (absent-Apart event s.events absent, l.single));
}

-- Whatever event and evidence are given, and whether the call returns or raises: if every event of the
-- table is of an evaluation of the table that matched, with its user, thesis, condition, rule version
-- and date, and no two events are of one evaluation, then this holds after
-- `save_event_with_evidence` too.
pub save_event_with_evidence-IsEventLog :
    (event : DomainEvent) (items : List EventEvidence) (s : Session)
    → IsEventLog s
    → IsEventLog (save_event_with_evidence event items s).1
save_event_with_evidence-IsEventLog event items s l =
    IsEventLog-EventSaved event s _ (save_event-EventSaved event items s) l
