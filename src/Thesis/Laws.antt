-- ===== src/Thesis/Laws.antt =====
-- What the constructors of the thesis models guarantee.
use stock_master.Prelude.{◌≡◌, ◌≤◌, true, ok, arith, refl}
use stock_master.Thesis.{
  InvestmentThesis, ThesisCondition, MetricCode, ThesisStatus, same_metric, same_status,
  thesis_fits, make_thesis, condition_fits, make_condition, daily_price_change_percent, active,
}

pub same_metric→eq : (a b : MetricCode) → same_metric a b ≡ true → a ≡ b
same_metric→eq a b h = ground arith

pub same_metric_refl : (a : MetricCode) → same_metric a a ≡ true
same_metric_refl daily_price_change_percent = refl
same_metric_refl _ = refl

pub same_status→eq : (a b : ThesisStatus) → same_status a b ≡ true → a ≡ b
same_status→eq a b h = ground arith

pub same_status_refl : (a : ThesisStatus) → same_status a a ≡ true
same_status_refl active = refl
same_status_refl _ = refl

-- A constructed thesis meets every constraint, and its clock does not run backwards.
pub make_thesis-fits : (t u : InvestmentThesis) → make_thesis t ≡ ok u → thesis_fits u ≡ true
unfolding make_thesis
make_thesis-fits t u h = ground arith

pub make_condition-fits :
    (c d : ThesisCondition) → make_condition c ≡ ok d → condition_fits d ≡ true
unfolding make_condition
make_condition-fits c d h = ground arith

pub condition_fits-periods :
    (c : ThesisCondition)
    → condition_fits c ≡ true
    → (1 ≤ c.consecutive_periods) × (c.consecutive_periods ≤ 12)
unfolding condition_fits
condition_fits-periods c h = ground arith
