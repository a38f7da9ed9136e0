-- ===== src/Store/Evaluations/Again.antt =====
-- Saving an evaluation of a period again: `save_rule_evaluation` of
-- app/database/thesis_repositories.py makes a second run of one period harmless.
use stock_master.Prelude.{
  ◌≡◌, refl, sym, ap, ◌∙◌, subst, List, [], ◌∷◌, Bool, true, ◌==◌, none, some, ok, find?,
  find?-append_new, arith, Bool-cases, Option-cases, inl, inr,
}
use stock_master.Prelude.Exec.{Exec, bind-eq-ok, bind-After, ◌>>=◌}
use stock_master.Event.{RuleEvaluation, is_some}
use stock_master.Store.{Session}
use stock_master.Store.Conditions.{require_condition, require_condition-state}
use stock_master.Store.Evaluations.{
  stored_evaluation, same_period, insert_new, insert_evaluation, save_rule_evaluation,
}
use stock_master.Store.Evaluations.Periods.{answer-state, stored_evaluation-period}

-- The table has a row of the period.
abbrev Present : RuleEvaluation → Session → Type 0
Present e s = (row : RuleEvaluation) × (find? (same_period e) s.evaluations ≡ some row)

insert_new-Present :
    (e row : RuleEvaluation) (s : Session) (new : Bool)
    → same_period e row ≡ true
    → find? (same_period e) s.evaluations ≡ none
    → (insert_new e row s).0 ≡ ok new
    → Present e (insert_new e row s).1
unfolding insert_new
insert_new-Present e row s new h k run =
    elim (Bool-cases (is_some (find? (λ (r : RuleEvaluation). r.id == e.id) s.evaluations))) [
      | inl taken ↦ absurd (ground (arith, taken, run))
      | inr free ↦ (row, rw free (find?-append_new (same_period e) s.evaluations row k h))
    ]

insert_evaluation-Present :
    (e : RuleEvaluation) (s : Session) (new : Bool)
    → (insert_evaluation e s).0 ≡ ok new
    → Present e (insert_evaluation e s).1
unfolding insert_evaluation
insert_evaluation-Present e s new run = elim (Option-cases (stored_evaluation s.world e)) [
  | inl none_stored ↦ absurd (ground (arith, none_stored, run))
  | inr (row, stored) ↦ elim (Option-cases (find? (same_period e) s.evaluations)) [
    | inr (old, present) ↦ (old, rw (stored, present) present)
    | inl absent ↦
        let same : insert_evaluation e s ≡ insert_new e row s = rw (stored, absent) in
        let (found, h) =
          insert_new-Present e row s new (stored_evaluation-period s.world e row stored) absent
            (sym (ap (λ p. p.0) same) ∙ run) in
        (found, ap (λ p. find? (same_period e) p.1.evaluations) same ∙ h)
  ]
]

save_rule_evaluation-Present :
    (e r : RuleEvaluation) (s s' : Session) → save_rule_evaluation e s ≡ (ok r, s') → Present e s'
unfolding save_rule_evaluation
save_rule_evaluation-Present e r s s' h =
    let found = require_condition e.user_id e.thesis_id e.condition_id in
    let (_, _, k1) = bind-eq-ok found _ s h in
    let (new, a2, k2) = bind-eq-ok (insert_evaluation e) _ (found s).1 k1 in
    let t = (insert_evaluation e (found s).1).1 in
    subst (Present e) (sym (answer-state new e t) ∙ ap (λ p. p.1) k2)
      (insert_evaluation-Present e (found s).1 new a2)

same_period_all :
    (e f x : RuleEvaluation) → same_period e f ≡ true → same_period f x ≡ same_period e x
unfolding same_period
same_period_all e f x h = ground arith

find?-same_period :
    (e f : RuleEvaluation) (xs : List RuleEvaluation)
    → same_period e f ≡ true
    → find? (same_period f) xs ≡ find? (same_period e) xs
find?-same_period e f [] h = refl
find?-same_period e f (x ∷ xs) h =
    ground (arith, same_period_all e f x h, find?-same_period e f xs h)

-- With a row of the period in the table nothing is inserted.
insert_evaluation-state :
    (e : RuleEvaluation) (s : Session) → Present e s → (insert_evaluation e s).1 ≡ s
unfolding insert_evaluation
insert_evaluation-state e s (row, present) = elim (Option-cases (stored_evaluation s.world e)) [
  | inl none_stored ↦ rw none_stored
  | inr (new, stored) ↦ rw (stored, present)
]

-- When one step keeps a state, a chain of steps that do keeps it.
bind-state :
    {A B : Type 0} (m : Exec Session A) (f : A → Exec Session B) (s : Session)
    → (m s).1 ≡ s
    → ((a : A) → (f a s).1 ≡ s)
    → ((m >>= f) s).1 ≡ s
bind-state m f s h k =
    bind-After (λ z. z ≡ s) m f s h (λ a _. subst (λ z. (f a z).1 ≡ s) (sym h) (k a))

-- Once an evaluation has been saved, saving an evaluation of the same condition, rule version and
-- date again changes nothing, whatever else it says and whether the second call returns or raises.
pub save_rule_evaluation-again :
    (e f r : RuleEvaluation) (s s' : Session)
    → save_rule_evaluation e s ≡ (ok r, s')
    → same_period e f ≡ true
    → (save_rule_evaluation f s').1 ≡ s'
unfolding save_rule_evaluation
save_rule_evaluation-again e f r s s' h same =
    let (row, present) = save_rule_evaluation-Present e r s s' h in
    let here : Present f s' = (row, find?-same_period e f s'.evaluations same ∙ present) in
    bind-state (require_condition f.user_id f.thesis_id f.condition_id) _ s'
      (require_condition-state f.user_id f.thesis_id f.condition_id s')
      λ _.
        bind-state (insert_evaluation f) _ s' (insert_evaluation-state f s' here)
          λ new. answer-state new f s'
