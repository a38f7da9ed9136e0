-- ===== src/Store/Events/Tests.antt =====
-- The theorems on the events of app/database/thesis_repositories.py, at a session with one matched
-- evaluation and no event yet.
use stock_master.Prelude.{◌≡◌, refl, text_eq_refl, [], ◌∷◌, ok, codes}
use stock_master.Text.{is_symbol, normalize_symbol, is_space, strip}
use stock_master.Event.{
  RuleEvaluation, DomainEvent, critical, open_event, make_evaluation, evaluation_fits,
  periods_consistent,
}
use stock_master.Rules.{candidate}
use stock_master.Store.{Session}
use stock_master.Store.Evaluations.{read_evaluation}
use stock_master.Store.Events.Checks.{validate_event_relationship, validate_evidence}
use stock_master.Store.Events.{
  save_event_with_evidence, get_rule_evaluation, owns_evaluation, put_event, insert_event,
  insert_evidence, stored_evidence, some_taken,
}
use stock_master.Store.Events.Grounded.{IsEventLog, save_event_with_evidence-IsEventLog}
use stock_master.Store.Events.Again.{save_event_with_evidence-again}
use stock_master.Store.Theses.Timeline.{empty_session}
use stock_master.Samples.{a_world, day, aapl, falls, fall_of}

-- the evaluation of a second fall in a row
abbrev matching : RuleEvaluation
matching = candidate 5 (day 203) aapl falls (fall_of 6 203) 2

abbrev start : Session
start = record (empty_session a_world 0 0) {
  theses = aapl ∷ [];
  conditions = falls ∷ [];
  evaluations = matching ∷ [];
}

abbrev event : DomainEvent
event = record {
  id = 31;
  user_id = 7;
  thesis_id = 11;
  condition_id = 21;
  evaluation_id = 5;
  symbol = codes "AAPL";
  event_type = codes "invalidation_condition_matched";
  severity = critical;
  status = open_event;
  title = codes "Falls twice";
  summary = codes "Two falls";
  occurred_on = 203;
  detected_at = day 203;
  rule_version = 1;
}

save_event_with_evidence-IsEventLog_example : IsEventLog (save_event_with_evidence event [] start).1
save_event_with_evidence-IsEventLog_example =
    save_event_with_evidence-IsEventLog event [] start (record { grounded = tt; single = tt })

abbrev after : Session
after = record start { events = event ∷ [] }

saved : save_event_with_evidence event [] start ≡ (ok (event, []), after)
unfolding save_event_with_evidence get_rule_evaluation owns_evaluation read_evaluation
    make_evaluation evaluation_fits periods_consistent candidate is_symbol normalize_symbol is_space
    strip validate_event_relationship validate_evidence put_event insert_event insert_evidence
    stored_evidence some_taken
saved = rw (text_eq_refl (codes "AAPL"))

save_event_with_evidence-again_example :
    (save_event_with_evidence (record event { id = 32; title = codes "Again" }) [] after).1 ≡ after
save_event_with_evidence-again_example =
    save_event_with_evidence-again event (record event { id = 32; title = codes "Again" }) [] []
      start after (event, []) saved refl
