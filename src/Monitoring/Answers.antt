-- ===== src/Monitoring/Answers.antt =====
-- What the saving methods of app/database/thesis_repositories.py answer to the monitoring service: what
-- they were given, or what an earlier run saved for the same period or evaluation.
use stock_master.Prelude.{
  ◌≡◌, refl, sym, ap, ◌∙◌, List, [], ◌∷◌, Bool, true, false, ◌==◌, ◌&&◌, Option, none, some, ok,
  or_raise, repository_conflict, resource_not_found, integrity_error, Option-cases, inl, inr, ◌++◌,
  if◌then◌else◌, find?, find?-Memᴰ, arith,
}
use stock_master.Prelude.Exec.{bind-eq-ok, lift, pure, raise_when}
use stock_master.Event.{RuleEvaluation, DomainEvent, EventEvidence, make_event, is_some}
use stock_master.Store.{Session}
use stock_master.Store.Conditions.{require_condition}
use stock_master.Store.Evaluations.{
  of_period, same_period, get_rule_evaluation_for_period, existing_evaluation, insert_evaluation,
  save_rule_evaluation,
}
use stock_master.Store.Evaluations.Reads.{make_evaluation-keys}
use stock_master.Store.Events.{
  read_event, get_event_by_evaluation, list_event_evidence, existing_event, insert_event,
  insert_evidence, put_event, get_rule_evaluation, save_event_with_evidence,
}
use stock_master.Store.Events.Checks.{validate_event_relationship, validate_evidence}
use stock_master.Store.Events.Grounded.{read_evaluation-some}

-- Evaluations of one condition, rule version and date, of one user and thesis.
pub record IsSamePeriod (e f : RuleEvaluation) : Type 0 where
  pub user : f.user_id ≡ e.user_id
  pub thesis : f.thesis_id ≡ e.thesis_id
  pub condition : f.condition_id ≡ e.condition_id
  pub version : f.rule_version ≡ e.rule_version
  pub date : f.data_as_of ≡ e.data_as_of

of_period-IsSamePeriod : (e row : RuleEvaluation) → of_period e row ≡ true → IsSamePeriod e row
unfolding of_period same_period
of_period-IsSamePeriod e row h = record {
  user = ground arith;
  thesis = ground arith;
  condition = ground arith;
  version = ground arith;
  date = ground arith;
}

given : {A : Type 0} (o : Option A) (a : A) → or_raise o repository_conflict ≡ ok a → o ≡ some a
given none a h = absurd (ground arith)
given (some x) a h = ground arith

existing_evaluation-ok :
    (e f : RuleEvaluation) (s s' : Session)
    → existing_evaluation e s ≡ (ok f, s')
    → IsSamePeriod e f
unfolding existing_evaluation get_rule_evaluation_for_period
existing_evaluation-ok e f s s' h =
    let (found, read, k1) = bind-eq-ok (get_rule_evaluation_for_period e) _ s h in
    let present = given found f (ap (λ p. p.0) k1) in
    let (row, at, made) =
      read_evaluation-some (find? (of_period e) s.evaluations) f (read ∙ ap ok present) in
    let (_, of) = find?-Memᴰ (of_period e) s.evaluations row at in
    let p = of_period-IsSamePeriod e row of in
    let (user, thesis, condition, version, date) = make_evaluation-keys row f made in
    record {
      user = user ∙ p.user;
      thesis = thesis ∙ p.thesis;
      condition = condition ∙ p.condition;
      version = version ∙ p.version;
      date = date ∙ p.date;
    }

answer_of :
    (inserted : Bool) (e f : RuleEvaluation) (s s' : Session)
    → (if inserted then pure e else existing_evaluation e) s ≡ (ok f, s')
    → IsSamePeriod e f
answer_of true e f s s' h =
    let same : e ≡ f = ground arith in
    record {
      user = ap (λ z. z.user_id) (sym same);
      thesis = ap (λ z. z.thesis_id) (sym same);
      condition = ap (λ z. z.condition_id) (sym same);
      version = ap (λ z. z.rule_version) (sym same);
      date = ap (λ z. z.data_as_of) (sym same);
    }
answer_of false e f s s' h = existing_evaluation-ok e f s s' h

-- The evaluation that saving returns is of the period of the one that was given.
pub save_rule_evaluation-IsSamePeriod :
    (e f : RuleEvaluation) (s s' : Session)
    → save_rule_evaluation e s ≡ (ok f, s')
    → IsSamePeriod e f
unfolding save_rule_evaluation
save_rule_evaluation-IsSamePeriod e f s s' h =
    let (_, _, k1) = bind-eq-ok (require_condition e.user_id e.thesis_id e.condition_id) _ s h in
    let (inserted, _, k2) = bind-eq-ok (insert_evaluation e) _ _ k1 in
    answer_of inserted e f _ s' k2

read_event-some :
    (o : Option DomainEvent) (e : DomainEvent)
    → read_event o ≡ ok (some e)
    → (row : DomainEvent) × (o ≡ some row) × (e.evaluation_id ≡ row.evaluation_id)
unfolding read_event make_event
read_event-some none e h = absurd (ground arith)
read_event-some (some row) e h = (row, refl, ground arith)

existing_event-ok :
    (event : DomainEvent) (s s' : Session) (r : DomainEvent × List EventEvidence)
    → existing_event event s ≡ (ok r, s')
    → r.0.evaluation_id ≡ event.evaluation_id
unfolding existing_event get_event_by_evaluation
existing_event-ok event s s' r h =
    let (found, read, k1) =
      bind-eq-ok (get_event_by_evaluation event.user_id event.evaluation_id) _ s h in
    let (old, taken, k2) = bind-eq-ok (lift (or_raise found repository_conflict)) _ s k1 in
    let (_, _, k3) = bind-eq-ok (list_event_evidence event.user_id old.id) _ s k2 in
    let test = λ (e : DomainEvent).
      (e.evaluation_id == event.evaluation_id) && (e.user_id == event.user_id) in
    let (row, at, same) =
      read_event-some (find? test s.events) old (read ∙ ap ok (given found old taken)) in
    let (_, of) = find?-Memᴰ test s.events row at in
    let answer : r.0 ≡ old = ground (arith, k3) in
    ap (λ e. e.evaluation_id) answer ∙ same ∙ ground (arith, of)

insert_event-ok :
    (event : DomainEvent) (items : List EventEvidence) (s s' : Session)
    (r : DomainEvent × List EventEvidence)
    → insert_event event items s ≡ (ok r, s')
    → r.0 ≡ event
unfolding insert_event
insert_event-ok event items s s' r h =
    let taken = is_some (find? (λ (x : DomainEvent). x.id == event.id) s.events) in
    let (_, _, k1) = bind-eq-ok (raise_when taken integrity_error) _ s h in
    let s1 = record s { events = s.events ++ event ∷ [] } in
    let (_, _, k2) = bind-eq-ok (insert_evidence items) _ s1 k1 in ground (arith, k2)

put_event-ok :
    (event : DomainEvent) (items : List EventEvidence) (s s' : Session)
    (r : DomainEvent × List EventEvidence)
    → put_event event items s ≡ (ok r, s')
    → r.0.evaluation_id ≡ event.evaluation_id
unfolding put_event
put_event-ok event items s s' r h =
    elim (Option-cases
      (find? (λ (x : DomainEvent). x.evaluation_id == event.evaluation_id) s.events)) [
        | inl absent ↦
            let k : insert_event event items s ≡ (ok r, s') = rw (← h, absent) refl in
            ap (λ e. e.evaluation_id) (insert_event-ok event items s s' r k)
        | inr (old, present) ↦
            let k : existing_event event s ≡ (ok r, s') = rw (← h, present) refl in
            existing_event-ok event s s' r k
      ]

-- The event that saving returns is of the evaluation of the one that was given.
pub save_event_with_evidence-evaluation :
    (event : DomainEvent) (items : List EventEvidence) (s s' : Session)
    (r : DomainEvent × List EventEvidence)
    → save_event_with_evidence event items s ≡ (ok r, s')
    → r.0.evaluation_id ≡ event.evaluation_id
unfolding save_event_with_evidence get_rule_evaluation
save_event_with_evidence-evaluation event items s s' r h =
    let (found, _, k1) = bind-eq-ok (get_rule_evaluation event.user_id event.evaluation_id) _ s h in
    let (e, _, k2) = bind-eq-ok (lift (or_raise found resource_not_found)) _ s k1 in
    let (_, _, k3) = bind-eq-ok (lift (validate_event_relationship event e)) _ s k2 in
    let (_, _, k4) = bind-eq-ok (lift (validate_evidence [] event items)) _ s k3 in
    put_event-ok event items s s' r k4
