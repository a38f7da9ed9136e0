-- ===== src/Store/Evaluations/Periods.antt =====
-- One evaluation for each version of a condition and each date: what `save_rule_evaluation` of
-- app/database/thesis_repositories.py guarantees.
use stock_master.Prelude.{
  ◌≡◌, refl, sym, subst, List, [], ◌∷◌, ◌++◌, Bool, true, false, ◌==◌, none, some, if◌then◌else◌,
  find?, All, All-append, arith, Bool-cases, Option-cases, inl, inr,
}
use stock_master.Prelude.Exec.{bind-After, pure}
use stock_master.Event.{RuleEvaluation, is_some}
use stock_master.Store.{Session, World}
use stock_master.Store.Conditions.{require_condition, require_condition-state}
use stock_master.Store.Evaluations.{
  stored_evaluation, same_period, insert_new, insert_evaluation, read_evaluation,
  get_rule_evaluation_for_period, existing_evaluation, save_rule_evaluation,
}

-- No two rows have one condition, version and date.
abbrev pub UniquePeriods : List RuleEvaluation → Type 0
UniquePeriods [] = Unit
UniquePeriods (x ∷ xs) = All (λ y. same_period x y ≡ false) xs × UniquePeriods xs

-- What a save does to the table: nothing, or one more row, for a period that had none.
pub data Saved (e : RuleEvaluation) (before : List RuleEvaluation)
    : List RuleEvaluation → Type 0 where
  unchanged : Saved e before before
  inserted :
      (row : RuleEvaluation)
      → (same_period e row ≡ true)
      → find? (same_period e) before ≡ none
      → Saved e before (before ++ row ∷ [])

pub stored_evaluation-period :
    (world : World) (e row : RuleEvaluation)
    → stored_evaluation world e ≡ some row
    → same_period e row ≡ true
unfolding stored_evaluation same_period
stored_evaluation-period world e row h = ground arith

insert_new-Saved :
    (e row : RuleEvaluation) (s : Session)
    → same_period e row ≡ true
    → find? (same_period e) s.evaluations ≡ none
    → Saved e s.evaluations (insert_new e row s).1.evaluations
unfolding insert_new
insert_new-Saved e row s h k =
    elim (Bool-cases (is_some (find? (λ (r : RuleEvaluation). r.id == e.id) s.evaluations))) [
      | inl taken ↦ rw taken unchanged
      | inr new ↦ rw new (inserted row h k)
    ]

insert_evaluation-Saved :
    (e : RuleEvaluation) (s : Session) → Saved e s.evaluations (insert_evaluation e s).1.evaluations
unfolding insert_evaluation
insert_evaluation-Saved e s = elim (Option-cases (stored_evaluation s.world e)) [
  | inl none_stored ↦ rw none_stored unchanged
  | inr (row, stored) ↦ elim (Option-cases (find? (same_period e) s.evaluations)) [
    | inr (old, present) ↦ rw (stored, present) unchanged
    | inl absent ↦
        rw (stored, absent)
          (insert_new-Saved e row s (stored_evaluation-period s.world e row stored) absent)
  ]
]

pub existing_evaluation-state : (e : RuleEvaluation) (s : Session) → (existing_evaluation e s).1 ≡ s
unfolding existing_evaluation get_rule_evaluation_for_period read_evaluation
existing_evaluation-state e s = ground arith

pub answer-state :
    (new : Bool) (e : RuleEvaluation) (s : Session)
    → ((if new then pure e else existing_evaluation e) s).1 ≡ s
answer-state true e s = refl
answer-state false e s = existing_evaluation-state e s

-- Whatever it returns or raises, `save_rule_evaluation` adds at most one row.
save_rule_evaluation-Saved :
    (e : RuleEvaluation) (s : Session)
    → Saved e s.evaluations (save_rule_evaluation e s).1.evaluations
unfolding save_rule_evaluation
save_rule_evaluation-Saved e s =
    let P = λ (z : Session). Saved e s.evaluations z.evaluations in
    let found = require_condition e.user_id e.thesis_id e.condition_id in
    let same = require_condition-state e.user_id e.thesis_id e.condition_id s in
    let after =
      subst (λ z. Saved e z.evaluations (insert_evaluation e (found s).1).1.evaluations) same
        (insert_evaluation-Saved e (found s).1) in
    bind-After P found _ s (subst P (sym same) unchanged) λ _ _.
      bind-After P (insert_evaluation e) _ (found s).1 after
        λ new _. subst P (sym (answer-state new e (insert_evaluation e (found s).1).1)) after

same_period_move :
    (e row x : RuleEvaluation)
    → same_period e row ≡ true
    → same_period e x ≡ false
    → same_period x row ≡ false
unfolding same_period
same_period_move e row x h k = ground arith

absent-All :
    (e row : RuleEvaluation) (xs : List RuleEvaluation)
    → same_period e row ≡ true
    → find? (same_period e) xs ≡ none
    → All (λ x. same_period x row ≡ false) xs
absent-All e row [] h k = tt
absent-All e row (x ∷ xs) h k =
    let miss : same_period e x ≡ false = ground arith in
    (same_period_move e row x h miss, absent-All e row xs h (ground (arith, miss, k)))

UniquePeriods-snoc :
    (xs : List RuleEvaluation) (row : RuleEvaluation)
    → All (λ x. same_period x row ≡ false) xs
    → UniquePeriods xs
    → UniquePeriods (xs ++ row ∷ [])
UniquePeriods-snoc [] row h u = (tt, tt)
UniquePeriods-snoc (x ∷ xs) row h u = (
  All-append (λ y. same_period x y ≡ false) xs (row ∷ []) u.0 (h.0, tt),
  UniquePeriods-snoc xs row h.1 u.1,
)

UniquePeriods-Saved :
    (e : RuleEvaluation) (xs ys : List RuleEvaluation)
    → Saved e xs ys
    → UniquePeriods xs
    → UniquePeriods ys
UniquePeriods-Saved e xs _ unchanged u = u
UniquePeriods-Saved e xs _ (inserted row h k) u =
    UniquePeriods-snoc xs row (absent-All e row xs h k) u

-- Whatever is saved, and whether the call returns or raises: if no two rows of the table have one
-- condition, rule version and date, no two do afterwards.
pub save_rule_evaluation-UniquePeriods :
    (e : RuleEvaluation) (s : Session)
    → UniquePeriods s.evaluations
    → UniquePeriods (save_rule_evaluation e s).1.evaluations
save_rule_evaluation-UniquePeriods e s u =
    UniquePeriods-Saved e s.evaluations _ (save_rule_evaluation-Saved e s) u
