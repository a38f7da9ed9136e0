-- ===== src/Ingestion/Named.antt =====
-- app/services/ingestion_runner.py: a batch that returns has one outcome for each symbol.
use stock_master.Prelude.{
  ℕ, ◌≤◌, ◌≡◌, refl, sym, ap, ap₂, ◌∙◌, Text, List, [], ◌∷◌, map, leb, none, ok, Bool-cases, inl,
  inr, arith, length,
}
use stock_master.Prelude.Exec.{bind-eq-ok, run-eq}
use stock_master.Ingestion.Outcomes.{SymbolIngestionOutcome, success_of, failure_of, circuit_open}
use stock_master.Ingestion.Items.{RunState, save_item}
use stock_master.Ingestion.{
  Settings, Attempted, refreshed, exhausted, retry, report_failure, conclude_symbol,
  refresh_with_retry, run_one, run_symbols, succeeded_of,
}

report_failure-eq :
    (run_id : ℕ) (o o' : SymbolIngestionOutcome) (s z : RunState)
    → report_failure run_id o s ≡ (ok o', z)
    → o' ≡ o
unfolding report_failure
report_failure-eq run_id o o' s z h =
    let (_, _, left) = bind-eq-ok (save_item run_id o) _ s h in ground (arith, left)

conclude_symbol-named :
    (run_id : ℕ) (symbol : Text) (p : Attempted × RunState) (z : RunState)
    (o : SymbolIngestionOutcome)
    → conclude_symbol run_id symbol p ≡ (ok o, z)
    → o.symbol ≡ symbol
unfolding conclude_symbol success_of failure_of
conclude_symbol-named run_id symbol (refreshed result, s) z o h = ground (arith, h)
conclude_symbol-named run_id symbol (exhausted last, s) z o h =
    ap (λ x. x.symbol) (report_failure-eq run_id _ o _ z h)

module _ (st : Settings) (run_id : ℕ) where
  run_one-named :
      (symbol : Text) (s z : RunState) (o : SymbolIngestionOutcome)
      → run_one st run_id symbol s ≡ (ok o, z)
      → o.symbol ≡ symbol
  unfolding run_one refresh_with_retry circuit_open
  run_one-named symbol s z o h =
      elim (Bool-cases (leb st.failure_threshold s.consecutive_failures)) [
        | inl opened ↦
            let skipped : run_one st run_id symbol s
                ≡ report_failure run_id (circuit_open symbol) s =
              rw opened refl in
            ap (λ x. x.symbol)
              (report_failure-eq run_id (circuit_open symbol) o s z (sym skipped ∙ h))
        | inr closed ↦
            let tried : run_one st run_id symbol s ≡ refresh_with_retry st run_id symbol s =
              rw closed refl in
            conclude_symbol-named run_id symbol (retry st run_id symbol st.max_attempts none s) z o
              (sym tried ∙ h)
      ]

  pub run_symbols-named :
      (symbols : List Text) (s z : RunState) (outcomes : List SymbolIngestionOutcome)
      → run_symbols st run_id symbols s ≡ (ok outcomes, z)
      → map (λ o. o.symbol) outcomes ≡ symbols
  unfolding run_symbols
  run_symbols-named [] s z outcomes h =
      let none_given : [] ≡ outcomes = ground (arith, h) in
      ap (map (λ o. o.symbol)) (sym none_given)
  run_symbols-named (symbol ∷ symbols) s z outcomes h =
      let (o, first, k) = bind-eq-ok (run_one st run_id symbol) _ s h in
      let w = (run_one st run_id symbol s).1 in
      let (os, others, last) = bind-eq-ok (run_symbols st run_id symbols) _ w k in
      let whole : o ∷ os ≡ outcomes = ground (arith, last) in
      ap (map (λ o. o.symbol)) (sym whole)
      ∙ ap₂ (λ x xs. x ∷ xs)
          (run_one-named symbol s w o (run-eq (run_one st run_id symbol) s first))
          (run_symbols-named symbols w _ os (run-eq (run_symbols st run_id symbols) w others))

pub succeeded_of-le : (os : List SymbolIngestionOutcome) → succeeded_of os ≤ length os
unfolding succeeded_of
succeeded_of-le [] = omega arith
succeeded_of-le (o ∷ os) = ground (arith, succeeded_of-le os)
