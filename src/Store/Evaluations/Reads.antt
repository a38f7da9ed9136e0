-- ===== src/Store/Evaluations/Reads.antt =====
-- The models of stored evaluations: `_evaluation_from_row` of app/database/thesis_repositories.py.
use stock_master.Prelude.{ℕ, ◌≡◌, ◌∙◌, List, ok, All, arith}
use stock_master.Prelude.Order.Distinct.{Distinct}
use stock_master.Prelude.Reading.{Reads, read_all-Reads, Reads-All, Reads-Distinct}
use stock_master.Thesis.{InvestmentThesis, ThesisCondition}
use stock_master.Event.{RuleEvaluation, make_evaluation}
use stock_master.Rules.History.{IsPrior, date_of}
use stock_master.Store.Evaluations.{read_evaluations}

pub make_evaluation-keys :
    (row e : RuleEvaluation)
    → make_evaluation row ≡ ok e
    → (e.user_id ≡ row.user_id)
      × (e.thesis_id ≡ row.thesis_id)
      × (e.condition_id ≡ row.condition_id)
      × (e.rule_version ≡ row.rule_version)
      × (e.data_as_of ≡ row.data_as_of)
unfolding make_evaluation
make_evaluation-keys row e h = ground arith

pub read_evaluations-Reads :
    (rows es : List RuleEvaluation) → read_evaluations rows ≡ ok es → Reads make_evaluation rows es
unfolding read_evaluations
read_evaluations-Reads rows es h = read_all-Reads make_evaluation rows es h

make_evaluation-date :
    (row e : RuleEvaluation) → make_evaluation row ≡ ok e → date_of e ≡ date_of row
make_evaluation-date row e h = let (_, _, _, _, date) = make_evaluation-keys row e h in date

pub Reads-dates :
    {rows es : List RuleEvaluation}
    → Reads make_evaluation rows es
    → Distinct date_of rows
    → Distinct date_of es
Reads-dates r h = Reads-Distinct date_of make_evaluation-date r h

module _ (thesis : InvestmentThesis) (condition : ThesisCondition) (before : ℕ) where
  IsPrior-read :
      (row e : RuleEvaluation)
      → make_evaluation row ≡ ok e
      → IsPrior thesis condition before row
      → IsPrior thesis condition before e
  IsPrior-read row e m p =
      let (user, thesis_of, condition_of, version, date) = make_evaluation-keys row e m in
      record {
        user = user ∙ p.user;
        thesis_of = thesis_of ∙ p.thesis_of;
        condition_of = condition_of ∙ p.condition_of;
        version = version ∙ p.version;
        before = omega (arith, date, p.before);
      }

  pub Reads-owned :
      {rows es : List RuleEvaluation}
      → Reads make_evaluation rows es
      → All (IsPrior thesis condition before) rows
      → All (IsPrior thesis condition before) es
  Reads-owned r h =
      Reads-All (IsPrior thesis condition before) (IsPrior thesis condition before) IsPrior-read r h
