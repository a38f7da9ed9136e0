-- ===== src/Ingestion/Breaker.antt =====
-- app/services/ingestion_runner.py: the circuit breaker.
use stock_master.Prelude.{
  ℕ, suc, ◌+◌, ◌-◌, ◌*◌, ◌≡◌, refl, ◌∙◌, Text, List, [], ◌∷◌, true, false, leb, none, ok,
  Bool-cases, inl, inr, arith, sym, ap, subst,
}
use stock_master.Prelude.Exec.{bind-eq-ok, run-eq}
use stock_master.Ingestion.Outcomes.{SymbolIngestionOutcome, success_of, circuit_open}
use stock_master.Ingestion.Items.{RunState}
use stock_master.Ingestion.{
  Settings, Attempted, refreshed, exhausted, report_failure, conclude_symbol, refresh_with_retry,
  run_one, run_symbols, succeeded_of,
}
use stock_master.Ingestion.Spent.{
  IsUntouched, Spent, report_failure-IsAside, IsUntouched-trans, retry-Spent,
}

-- What one symbol leaves when it fails: it adds a failure, if it was tried.
record IsFailure (st : Settings) (s z : RunState) : Type 0 where
  kept : IsUntouched st.max_attempts s z
  counted : z.consecutive_failures ≡ suc s.consecutive_failures

conclude_symbol-IsFailure :
    (st : Settings) (run_id : ℕ) (symbol : Text) (s z : RunState) (o : SymbolIngestionOutcome)
    (p : Attempted × RunState)
    → Spent st.max_attempts s p
    → conclude_symbol run_id symbol p ≡ (ok o, z)
    → o.succeeded ≡ false
    → IsFailure st s z
unfolding Spent conclude_symbol success_of
conclude_symbol-IsFailure st run_id symbol s z o (refreshed result, w) h done f =
    absurd (ground (arith, f, done))
conclude_symbol-IsFailure st run_id symbol s z o (exhausted last, w) (h, same) done f =
    let (_, aside) = report_failure-IsAside run_id _ o _ z done in
    record {
      kept = record {
        bars = aside.bars ∙ h.bars;
        snapshots = aside.snapshots ∙ h.snapshots;
        calls = omega (arith, h.calls, aside.calls);
      };
      counted = omega (arith, same, aside.failures);
    }

-- The attempts that are left before the circuit opens, when every symbol fails.
abbrev pub budget : Settings → RunState → ℕ
budget st s = (st.failure_threshold - s.consecutive_failures) * st.max_attempts

module _ (st : Settings) (run_id : ℕ) where
  run_one-open :
      (symbol : Text) (s z : RunState) (o : SymbolIngestionOutcome)
      → leb st.failure_threshold s.consecutive_failures ≡ true
      → run_one st run_id symbol s ≡ (ok o, z)
      → IsUntouched 0 s z × (z.consecutive_failures ≡ s.consecutive_failures)
  unfolding run_one
  run_one-open symbol s z o h done =
      let skipped : run_one st run_id symbol s ≡ report_failure run_id (circuit_open symbol) s =
        rw h refl in
      let failed : report_failure run_id (circuit_open symbol) s ≡ (ok o, z) = sym skipped ∙ done in
      let (_, aside) = report_failure-IsAside run_id (circuit_open symbol) o s z failed in
      (
        record {
          bars = aside.bars;
          snapshots = aside.snapshots;
          calls = omega (arith, aside.calls);
        },
        aside.failures,
      )

  run_one-closed :
      (symbol : Text) (s z : RunState) (o : SymbolIngestionOutcome)
      → leb st.failure_threshold s.consecutive_failures ≡ false
      → run_one st run_id symbol s ≡ (ok o, z)
      → o.succeeded ≡ false
      → IsFailure st s z
  unfolding run_one refresh_with_retry
  run_one-closed symbol s z o h done f =
      let same : run_one st run_id symbol s ≡ refresh_with_retry st run_id symbol s = rw h refl in
      let tried : refresh_with_retry st run_id symbol s ≡ (ok o, z) = sym same ∙ done in
      conclude_symbol-IsFailure st run_id symbol s z o _
        (retry-Spent st run_id symbol st.max_attempts none s) tried f

  run_symbols-open :
      (s z w : RunState)
      → IsUntouched 0 s z × (z.consecutive_failures ≡ s.consecutive_failures)
      → IsUntouched (budget st z) z w
      → IsUntouched (budget st s) s w
  run_symbols-open s z w (a, same) b =
      let left : budget st z ≡ budget st s = rw same refl in
      let both = IsUntouched-trans 0 (budget st z) s z w a b in
      record {
        bars = both.bars;
        snapshots = both.snapshots;
        calls = omega (arith, both.calls, left);
      }

  run_symbols-closed :
      (s z w : RunState)
      → leb st.failure_threshold s.consecutive_failures ≡ false
      → IsUntouched st.max_attempts s z
      → z.consecutive_failures ≡ suc s.consecutive_failures
      → IsUntouched (budget st z) z w
      → IsUntouched (budget st s) s w
  run_symbols-closed s z w h a more b =
      let one : st.failure_threshold - s.consecutive_failures
          ≡ suc (st.failure_threshold - z.consecutive_failures) =
        ground (arith, h, more) in
      let left : budget st s ≡ st.max_attempts + budget st z = rw one (omega arith) in
      let both = IsUntouched-trans st.max_attempts (budget st z) s z w a b in
      record {
        bars = both.bars;
        snapshots = both.snapshots;
        calls = omega (arith, both.calls, left);
      }

  -- When a batch returns outcomes and its provider failed for every symbol: at most as many attempts
  -- were made as the failures that the circuit breaker still admitted times the attempts for a symbol,
  -- however long the batch is, and the bars and the fundamentals of the database are as before.
  pub run_symbols-down :
      (symbols : List Text) (s z : RunState) (outcomes : List SymbolIngestionOutcome)
      → run_symbols st run_id symbols s ≡ (ok outcomes, z)
      → succeeded_of outcomes ≡ 0
      → IsUntouched (budget st s) s z
  unfolding run_symbols succeeded_of
  run_symbols-down [] s z outcomes done h =
      subst (IsUntouched (budget st s) s) (ap (λ p. p.1) done)
        (record { bars = refl; snapshots = refl; calls = omega arith })
  run_symbols-down (symbol ∷ symbols) s z outcomes done h =
      let (o, first, k) = bind-eq-ok (run_one st run_id symbol) _ s done in
      let w = (run_one st run_id symbol s).1 in
      let (os, others, last) = bind-eq-ok (run_symbols st run_id symbols) _ w k in
      let whole : o ∷ os ≡ outcomes = ground (arith, last) in
      let none_succeeded : succeeded_of (o ∷ os) ≡ 0 = ap succeeded_of whole ∙ h in
      let failed : o.succeeded ≡ false = ground (arith, none_succeeded) in
      let left : (run_symbols st run_id symbols w).1 ≡ z = ap (λ p. p.1) last in
      let rest = subst (IsUntouched (budget st w) w) left (
        run_symbols-down symbols w _ os (run-eq (run_symbols st run_id symbols) w others)
          (omega (arith, none_succeeded))) in
      let one = run-eq (run_one st run_id symbol) s first in
      elim (Bool-cases (leb st.failure_threshold s.consecutive_failures)) [
        | inl opened ↦ run_symbols-open s w z (run_one-open symbol s w o opened one) rest
        | inr closed ↦
            let f = run_one-closed symbol s w o closed one failed in
            run_symbols-closed s w z closed f.kept f.counted rest
      ]
