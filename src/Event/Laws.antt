-- ===== src/Event/Laws.antt =====
-- What the constructors of the event models guarantee.
use stock_master.Prelude.{◌≡◌, ◌↔◌, true, ok, arith}
use stock_master.Text.{is_symbol, normalize_symbol}
use stock_master.Text.Laws.{normalize_symbol_of_symbol}
use stock_master.Event.{RuleEvaluation, evaluation_fits, make_evaluation}

-- A constructed evaluation meets every constraint.
pub make_evaluation-fits :
    (e f : RuleEvaluation) → make_evaluation e ≡ ok f → evaluation_fits f ≡ true
unfolding make_evaluation
make_evaluation-fits e f h = ground arith

-- The matched flag of an evaluation says exactly that the count has reached the requirement.
pub evaluation_fits-matched_iff :
    (e : RuleEvaluation)
    → evaluation_fits e ≡ true
    → (e.matched ≡ true) ↔ (e.consecutive_periods_matched ≡ e.consecutive_periods_required)
unfolding evaluation_fits
evaluation_fits-matched_iff e h = (λ m. ground arith, λ m. ground arith)

evaluation_fits-is_symbol :
    (e : RuleEvaluation) → evaluation_fits e ≡ true → is_symbol e.symbol ≡ true
unfolding evaluation_fits
evaluation_fits-is_symbol e h = ground arith

-- An evaluation that meets the constraints is constructed as it is.
pub make_evaluation_of_fits :
    (e : RuleEvaluation) → evaluation_fits e ≡ true → make_evaluation e ≡ ok e
unfolding make_evaluation
make_evaluation_of_fits e h =
    let q = normalize_symbol_of_symbol e.symbol (evaluation_fits-is_symbol e h) in
    let p : record e { symbol = normalize_symbol e.symbol } ≡ e = λ i. record e { symbol = q i } in
    rw p (rw h)
