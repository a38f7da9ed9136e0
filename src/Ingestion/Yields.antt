-- ===== src/Ingestion/Yields.antt =====
-- app/services/ingestion_runner.py: one symbol of a batch ends with its outcome and one row for it.
use stock_master.Prelude.{
  ℕ, zero, suc, ◌+◌, ◌≡◌, refl, sym, ◌∙◌, subst, Text, leb, Option, some, none, Result, ok, err,
  Error, Bool-cases, inl, inr, arith,
}
use stock_master.Prelude.Exec.{run-eq}
use stock_master.Text.{strip, upper}
use stock_master.Store.{Session}
use stock_master.Ingestion.Refresh.{IngestionResult, refresh_symbol}
use stock_master.Ingestion.Outcomes.{SymbolIngestionOutcome, success_of, failure_of, circuit_open}
use stock_master.Ingestion.Items.{RunState}
use stock_master.Ingestion.Written.{
  Room, Adds, Wrote, Saves, save_item-Adds, Room-from, Adds-from, Wrote-from, refresh_symbol-symbol,
}
use stock_master.Ingestion.{
  Settings, commit, settle, attempt, Attempted, refreshed, exhausted, retry, report_failure,
  conclude_symbol, refresh_with_retry, run_one,
}

module _ (st : Settings) (run_id : ℕ) (symbol : Text) where
  -- What the loop does after an attempt.
  abbrev go_on : ℕ → Result IngestionResult × RunState → Attempted × RunState
  go_on n p = elim p.0 as (λ x. Attempted × RunState) [
    | ok result ↦ (refreshed result, p.1)
    | err e ↦ retry st run_id symbol n (some e) p.1
  ]

  commit-Wrote :
      (n : ℕ) (s : RunState) (result : IngestionResult) (x : Text)
      (p : Result (Unit {0}) × RunState)
      → Saves run_id (success_of x result) s p
      → Wrote run_id x s (go_on n (commit s result p))
  unfolding Wrote commit
  commit-Wrote n s result x (ok u, z) h =
      Adds-from run_id (success_of x result) s s _ refl refl
        (record { row = h.1.row; items = h.1.items; item = h.1.item; runs = h.1.runs })
  commit-Wrote n s result x (err e, z) h = absurd (ground (arith, h.0))

  settle-Wrote :
      (n : ℕ) (s : RunState) (p : Result IngestionResult × Session)
      → Room run_id symbol s
      → ((result : IngestionResult) → p.0 ≡ ok result → result.symbol ≡ symbol)
      → ((e : Error) (z : RunState)
          → Room run_id symbol z
          → Wrote run_id symbol z (retry st run_id symbol n (some e) z))
      → Wrote run_id symbol s (go_on n (settle run_id symbol s p))
  unfolding settle success_of
  settle-Wrote n s (ok result, after) room named rest =
      let same = named result refl in
      let here = subst (λ x. Room run_id x s) (sym same) room in
      let start = record s { session = after; attempts = s.attempts + 1 } in
      let saved =
        save_item-Adds run_id (success_of result.symbol result) start
          (Room-from run_id result.symbol s start refl refl here) in
      subst (λ x. Wrote run_id x s (go_on n (settle run_id symbol s (ok result, after)))) same
        (commit-Wrote n s result result.symbol _
          (saved.0, Adds-from run_id (success_of result.symbol result) s start _ refl refl saved.1))
  settle-Wrote n s (err e, after) room named rest =
      Wrote-from run_id symbol s _ _ refl refl
        (rest e _ (Room-from run_id symbol s _ refl refl room))

  retry-Wrote :
      (n : ℕ) (last : Option Error) (s : RunState)
      → upper (strip symbol) ≡ symbol
      → Room run_id symbol s
      → Wrote run_id symbol s (retry st run_id symbol n last s)
  unfolding retry Wrote attempt
  retry-Wrote zero last s normal room = (refl, refl)
  retry-Wrote (suc n) last s normal room =
      let answer = st.answers s.attempts symbol in
      settle-Wrote n s (refresh_symbol answer symbol s.session) room
        (λ result h.
          refresh_symbol-symbol answer symbol s.session _ result
            (run-eq (refresh_symbol answer symbol) s.session h)
          ∙ normal)
        (λ e z r. retry-Wrote n (some e) z normal r)

  -- What a symbol of the batch yields: its outcome, and one row for it.
  pub record Yields (s : RunState) (p : Result SymbolIngestionOutcome × RunState) : Type 0 where
    pub outcome : SymbolIngestionOutcome
    pub done : p.0 ≡ ok outcome
    pub named : outcome.symbol ≡ symbol
    pub added : Adds run_id outcome s p.1

  report_failure-Yields :
      (o : SymbolIngestionOutcome) (s z : RunState)
      → o.symbol ≡ symbol
      → z.items ≡ s.items
      → z.runs ≡ s.runs
      → Room run_id symbol s
      → Yields s (report_failure run_id o z)
  unfolding report_failure
  report_failure-Yields o s z named items runs room =
      let here = subst (λ x. Room run_id x s) (sym named) room in
      let saved = save_item-Adds run_id o z (Room-from run_id o.symbol s z items runs here) in
      rw saved.0 (record {
        outcome = o;
        done = refl;
        named = named;
        added = Adds-from run_id o s z _ items runs saved.1;
      })

  conclude_symbol-Yields :
      (s : RunState) (p : Attempted × RunState)
      → Room run_id symbol s
      → Wrote run_id symbol s p
      → Yields s (conclude_symbol run_id symbol p)
  unfolding conclude_symbol Wrote failure_of success_of
  conclude_symbol-Yields s (refreshed result, z) room h = record {
    outcome = success_of symbol result;
    done = refl;
    named = refl;
    added = h;
  }
  conclude_symbol-Yields s (exhausted last, z) room h =
      report_failure-Yields (failure_of symbol last) s _ refl h.0 h.1 room

  pub run_one-Yields :
      (s : RunState)
      → upper (strip symbol) ≡ symbol
      → Room run_id symbol s
      → Yields s (run_one st run_id symbol s)
  unfolding run_one refresh_with_retry circuit_open
  run_one-Yields s normal room =
      elim (Bool-cases (leb st.failure_threshold s.consecutive_failures)) [
        | inl opened ↦
            rw opened (report_failure-Yields (circuit_open symbol) s s refl refl refl room)
        | inr closed ↦
            rw closed
              (conclude_symbol-Yields s _ room (retry-Wrote st.max_attempts none s normal room))
      ]
