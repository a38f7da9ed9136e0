-- ===== src/Rules/History.antt =====
-- The history that `_validate_and_order_history` of app/domain/rule_engine.py accepts, and what
-- the evaluation takes from it.
use stock_master.Prelude.{
  ℕ, ◌≤◌, ◌<◌, ◌≡◌, inl, inr, List, [], ◌∷◌, true, false, ok, >>=-eq-ok, arith, refl, All, ◌∙◌, ap,
  last?, some, Option-cases, Memᴰ-last?, last?-eq-none, All-Memᴰ, subst,
}
use mathlib.Core.List.{Memᴰ}
use mathlib.Core.List.Permᴰ
use mathlib.Core.List.Memᴰ
use stock_master.Prelude.Order.{IsOrder, sorted, sorted-perm, sorted-IsSorted, last?-IsSorted}
use stock_master.Prelude.Order.Distinct.{
  All-perm, Apart, Distinct, Distinct-perm, Distinct-injective, Memᴰ-perm,
}
use stock_master.Thesis.{InvestmentThesis, ThesisCondition}
use stock_master.Event.{RuleEvaluation}
use stock_master.Metric.{contains}
use stock_master.Rules.{earlier, check_prior, check_history, validate_and_order_history}

pub earlier-IsOrder : IsOrder earlier
unfolding earlier
earlier-IsOrder = record { total = λ a b h. ground arith; le_trans = λ a b c h k. ground arith }

abbrev pub date_of : RuleEvaluation → ℕ
date_of e = e.data_as_of

pub earlier_strict :
    (a b : RuleEvaluation) → Apart date_of a b → earlier a b ≡ true → earlier b a ≡ false
unfolding earlier
earlier_strict a b h k = ground arith

module _ (thesis : InvestmentThesis) (condition : ThesisCondition) (current : ℕ) where
  -- An earlier evaluation of this version of the condition.
  pub record IsPrior (e : RuleEvaluation) : Type 0 where
    pub user : e.user_id ≡ condition.user_id
    pub thesis_of : e.thesis_id ≡ thesis.id
    pub condition_of : e.condition_id ≡ condition.id
    pub version : e.rule_version ≡ condition.version
    pub before : e.data_as_of < current

  -- Earlier evaluations of this version of the condition, one for each date.
  pub record IsHistory (prior : List RuleEvaluation) : Type 0 where
    pub owned : All IsPrior prior
    pub dates : Distinct date_of prior

  abbrev Fresh : List ℕ → RuleEvaluation → Type 0
  Fresh seen e = contains e.data_as_of seen ≡ false

  check_prior_accepts :
      (seen : List ℕ) (e : RuleEvaluation)
      → IsPrior e
      → Fresh seen e
      → check_prior thesis condition current seen e ≡ ok tt
  unfolding check_prior
  check_prior_accepts seen e h k = ground arith

  check_prior_refuses :
      (seen : List ℕ) (e : RuleEvaluation)
      → check_prior thesis condition current seen e ≡ ok tt
      → IsPrior e × Fresh seen e
  unfolding check_prior
  check_prior_refuses seen e h = ground arith

  Fresh-cons :
      (d : RuleEvaluation) (seen : List ℕ) (es : List RuleEvaluation)
      → All (Apart date_of d) es
      → All (Fresh seen) es
      → All (Fresh (d.data_as_of ∷ seen)) es
  unfolding contains
  Fresh-cons d seen [] h k = tt
  Fresh-cons d seen (e ∷ es) h k = (ground (arith, h.0, k.0), Fresh-cons d seen es h.1 k.1)

  Fresh-uncons :
      (d : RuleEvaluation) (seen : List ℕ) (es : List RuleEvaluation)
      → All (Fresh (d.data_as_of ∷ seen)) es
      → All (Apart date_of d) es × All (Fresh seen) es
  unfolding contains
  Fresh-uncons d seen [] h = (tt, tt)
  Fresh-uncons d seen (e ∷ es) h =
      let (apart, fresh) = Fresh-uncons d seen es h.1 in
      ((ground (arith, h.0), apart), (ground (arith, h.0), fresh))

  check_history_accepts :
      (seen : List ℕ) (es : List RuleEvaluation)
      → All IsPrior es
      → Distinct date_of es
      → All (Fresh seen) es
      → check_history thesis condition current seen es ≡ ok tt
  unfolding check_history
  check_history_accepts seen [] h d f = refl
  check_history_accepts seen (e ∷ es) h d f =
      rw (check_prior_accepts seen e h.0 f.0)
        (check_history_accepts (e.data_as_of ∷ seen) es h.1 d.1 (Fresh-cons e seen es d.0 f.1))

  check_history_refuses :
      (seen : List ℕ) (es : List RuleEvaluation)
      → check_history thesis condition current seen es ≡ ok tt
      → All IsPrior es × Distinct date_of es × All (Fresh seen) es
  unfolding check_history
  check_history_refuses seen [] h = (tt, tt, tt)
  check_history_refuses seen (e ∷ es) h =
      let (_, first, others) = >>=-eq-ok (check_prior thesis condition current seen e) _ h in
      let (owned, fresh) = check_prior_refuses seen e first in
      let (all_owned, dates, all_fresh) = check_history_refuses (e.data_as_of ∷ seen) es others in
      let (apart, unseen) = Fresh-uncons e seen es all_fresh in
      ((owned, all_owned), (apart, dates), (fresh, unseen))

  Fresh-nil : (es : List RuleEvaluation) → All (Fresh []) es
  unfolding contains
  Fresh-nil [] = tt
  Fresh-nil (e ∷ es) = (refl, Fresh-nil es)

  sorted-IsHistory :
      (prior : List RuleEvaluation) → IsHistory prior → IsHistory (sorted earlier prior)
  sorted-IsHistory prior h =
      let p = Permᴰ.symm (sorted-perm earlier prior) in
      record { owned = All-perm IsPrior p h.owned; dates = Distinct-perm date_of p h.dates }

  pub validate_and_order_history_accepts :
      (prior : List RuleEvaluation)
      → IsHistory prior
      → validate_and_order_history thesis condition current prior ≡ ok (sorted earlier prior)
  unfolding validate_and_order_history
  validate_and_order_history_accepts prior h =
      let k = sorted-IsHistory prior h in
      rw (check_history_accepts [] (sorted earlier prior) k.owned k.dates (Fresh-nil _))

  pub validate_and_order_history_refuses :
      (prior ordered : List RuleEvaluation)
      → validate_and_order_history thesis condition current prior ≡ ok ordered
      → IsHistory prior
  unfolding validate_and_order_history
  validate_and_order_history_refuses prior ordered h =
      let (_, checked, _) =
        >>=-eq-ok (check_history thesis condition current [] (sorted earlier prior)) _ h in
      let (owned, dates, _) = check_history_refuses [] (sorted earlier prior) checked in
      let p = sorted-perm earlier prior in
      record { owned = All-perm IsPrior p owned; dates = Distinct-perm date_of p dates }

  -- `p` is the latest of the prior evaluations.
  pub record IsLatest (p : RuleEvaluation) (prior : List RuleEvaluation) : Type 0 where
    pub member : Memᴰ p prior
    pub latest : All (λ e. e.data_as_of ≤ p.data_as_of) prior

  earlier-le :
      (p : RuleEvaluation) (es : List RuleEvaluation)
      → All (λ e. earlier e p ≡ true) es
      → All (λ e. e.data_as_of ≤ p.data_as_of) es
  unfolding earlier
  earlier-le p [] h = tt
  earlier-le p (e ∷ es) h = (ground (arith, h.0), earlier-le p es h.1)

  -- The last evaluation of the ordered history is the latest one.
  pub last?-sorted :
      (p : RuleEvaluation) (prior : List RuleEvaluation)
      → IsHistory prior
      → IsLatest p prior
      → last? (sorted earlier prior) ≡ some p
  last?-sorted p prior h l = elim (Option-cases (last? (sorted earlier prior))) [
    | inl e ↦
        let there = Memᴰ-perm (Permᴰ.symm (sorted-perm earlier prior)) l.member in
        absurd (Memᴰ.not-nil (subst (Memᴰ p) (last?-eq-none (sorted earlier prior) e) there))
    | inr (m, e) ↦
        let member =
          Memᴰ-perm (sorted-perm earlier prior) (Memᴰ-last? (sorted earlier prior) m e) in
        let below =
          last?-IsSorted earlier-IsOrder (sorted earlier prior) m
            (sorted-IsSorted earlier-IsOrder prior) e in
        let not_after =
          earlier-le m _ (All-perm (λ x. earlier x m ≡ true) (sorted-perm earlier prior) below) in
        let p_le = All-Memᴰ (λ x. x.data_as_of ≤ m.data_as_of) not_after l.member in
        let m_le = All-Memᴰ (λ x. x.data_as_of ≤ p.data_as_of) l.latest member in
        e ∙ ap some (Distinct-injective date_of h.dates member l.member (omega arith))
  ]
