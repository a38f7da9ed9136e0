-- ===== src/Ingestion.antt =====
-- app/services/ingestion_runner.py: a sequential batch of refreshes with retries and a circuit breaker.
-- The waits between requests and attempts are not modelled.
pub mod Outcomes
pub mod Refresh
pub mod Items
pub mod Spent
pub mod Breaker
pub mod Written
pub mod Yields
pub mod Recorded
pub mod Sorted
pub mod Named
pub mod Results
pub mod SymbolSet
pub mod Completed
mod Tests
use stock_master.Prelude.{
  ℕ, zero, suc, ◌+◌, ◌-◌, Text, List, [], ◌∷◌, ◌++◌, Bool, true, false, ◌||◌, ◌==◌, leb, ltb,
  length, Option, none, some, Result, ok, err, Error, ingestion_run_conflict, if◌then◌else◌, codes,
  text_eq, integrity_error, data_error,
}
use stock_master.Prelude.Exec.{Exec, ◌>>=◌, ◌>>◌, pure, raise, lift, modify}
use stock_master.Thesis.{DateTime}
use stock_master.Store.{Session}
use stock_master.Store.Theses.{update_rows}
use stock_master.Ingestion.Refresh.{IngestionResult, Answer, refresh_symbol}
use stock_master.Ingestion.Outcomes.{
  SymbolIngestionOutcome, IngestionRunOutcome, IngestionRun, normalize_run_symbol,
  normalize_symbols, active_symbols, success_of, failure_of, circuit_open,
}
use stock_master.Ingestion.Items.{RunState, save_item}

-- the attributes of the runner that do not change, and what is outside: whether the data source can be
-- created, and what it answers to the n-th attempt of the runner
pub record Settings : Type 0 where
  pub provider : Text
  pub failure_threshold : ℕ
  pub max_attempts : ℕ
  pub source_created : Result (Unit {0})
  pub answers : ℕ → Text → Answer

-- a transaction that raised: the tables are as before, but for what was drawn
unfoldable pub rolled_back : Session → Session → Session
rolled_back before after = record before {
  uuids_drawn = after.uuids_drawn;
  instants_drawn = after.instants_drawn;
}

-- the end of a transaction whose refresh was good; the item that it adds may still be refused
unfoldable pub commit :
    RunState → IngestionResult → Result (Unit {0}) × RunState → Result IngestionResult × RunState
commit s result (ok u, z) = (ok result, record z { consecutive_failures = 0 })
commit s result (err e, z) =
    (err e, record s { session = rolled_back s.session z.session; attempts = s.attempts + 1 })

-- the outcome of one attempt, whose transaction is committed or rolled back
unfoldable pub settle :
    ℕ → Text → RunState → Result IngestionResult × Session → Result IngestionResult × RunState
settle run_id symbol s (err e, after) =
    (err e, record s { session = rolled_back s.session after; attempts = s.attempts + 1 })
settle run_id symbol s (ok result, after) = commit s result (
    save_item run_id (success_of result.symbol result)
      (record s { session = after; attempts = s.attempts + 1 }))

unfoldable pub attempt : Settings → ℕ → Text → RunState → Result IngestionResult × RunState
attempt st run_id symbol s =
    settle run_id symbol s (refresh_symbol (st.answers s.attempts symbol) symbol s.session)

-- How the attempts for a symbol end: with a refresh, or with the last error.
pub data Attempted : Type 0 where
  refreshed : IngestionResult → Attempted
  exhausted : Option Error → Attempted

-- the loop over the attempts that are left, after the last error
unfoldable pub retry : Settings → ℕ → Text → ℕ → Option Error → RunState → Attempted × RunState
retry st run_id symbol zero last s = (exhausted last, s)
retry st run_id symbol (suc n) last s =
    let tried = attempt st run_id symbol s in
    elim tried.0 [
      | ok result ↦ (refreshed result, tried.1)
      | err e ↦ retry st run_id symbol n (some e) tried.1
    ]

-- an outcome that is reported as a failed item
unfoldable pub report_failure : ℕ → SymbolIngestionOutcome → Exec RunState SymbolIngestionOutcome
report_failure run_id outcome = do save_item run_id outcome; pure outcome

-- the outcome of a symbol from its attempts
unfoldable pub conclude_symbol :
    ℕ → Text → Attempted × RunState → Result SymbolIngestionOutcome × RunState
conclude_symbol run_id symbol (refreshed result, s) = (ok (success_of symbol result), s)
conclude_symbol run_id symbol (exhausted last, s) =
    report_failure run_id (failure_of symbol last)
      (record s { consecutive_failures = s.consecutive_failures + 1 })

unfoldable pub refresh_with_retry : Settings → ℕ → Text → Exec RunState SymbolIngestionOutcome
refresh_with_retry st run_id symbol s =
    conclude_symbol run_id symbol (retry st run_id symbol st.max_attempts none s)

-- the body of the loop of `_run_symbols`
unfoldable pub run_one : Settings → ℕ → Text → Exec RunState SymbolIngestionOutcome
run_one st run_id symbol s =
    if leb st.failure_threshold s.consecutive_failures
    then report_failure run_id (circuit_open symbol) s
    else refresh_with_retry st run_id symbol s

unfoldable pub run_symbols : Settings → ℕ → List Text → Exec RunState (List SymbolIngestionOutcome)
run_symbols st run_id [] = pure []
run_symbols st run_id (symbol ∷ symbols) = do
  outcome ← run_one st run_id symbol
  outcomes ← run_symbols st run_id symbols
  pure (outcome ∷ outcomes)

-- `sum(item.succeeded for item in outcomes)`
unfoldable pub succeeded_of : List SymbolIngestionOutcome → ℕ
succeeded_of [] = 0
succeeded_of (o ∷ os) = (if o.succeeded then 1 else 0) + succeeded_of os

unfoldable pub status_of : ℕ → ℕ → Text
status_of succeeded failed =
    if failed == 0
    then codes "succeeded"
    else if succeeded == 0
    then codes "failed"
    else codes "partial"

-- the row of the run, completed
unfoldable pub completed_row : Text → ℕ → ℕ → DateTime → IngestionRun → IngestionRun
completed_row status succeeded failed instant row = record row {
  status = status;
  succeeded_count = succeeded;
  failed_count = failed;
  completed_at = some instant;
}

-- `_complete_run`
unfoldable pub complete_run :
    Settings → ℕ → List SymbolIngestionOutcome → RunState → IngestionRunOutcome × RunState
complete_run st run_id outcomes s =
    let succeeded = succeeded_of outcomes in
    let failed = length outcomes - succeeded in
    let status = status_of succeeded failed in
    let session = s.session in
    (
      record {
        run_id = run_id;
        source = st.provider;
        status = status;
        requested_count = length outcomes;
        succeeded_count = succeeded;
        failed_count = failed;
        items = outcomes;
      },
      record s {
        session = record session { instants_drawn = session.instants_drawn + 1 };
        runs =
            update_rows (λ (row : IngestionRun). row.id == run_id)
              (completed_row status succeeded failed (session.world.clock session.instants_drawn))
              s.runs;
      },
    )

-- `_complete_run`, at the end of `run`
unfoldable pub finish_run :
    Settings → ℕ → List SymbolIngestionOutcome → Exec RunState IngestionRunOutcome
finish_run st run_id outcomes s =
    let done = complete_run st run_id outcomes s in (ok done.0, done.1)

-- the constraints of a row of `ingestion_runs`
unfoldable pub run_fits : Text → Text → Result (Unit {0})
run_fits source mode =
    if ltb 50 (length source) || ltb 16 (length mode)
    then err data_error
    else if text_eq mode (codes "symbol") || text_eq mode (codes "active")
    then ok tt
    else err integrity_error

-- `_create_run`
unfoldable pub create_run : Settings → ℕ → Text → ℕ → DateTime → Exec RunState (Unit {0})
create_run st run_id mode requested started = do
  lift (run_fits st.provider mode)
  modify (λ s. record s {
    runs =
        s.runs
        ++ (record {
          id = run_id;
          source = st.provider;
          mode = mode;
          status = codes "running";
          requested_count = requested;
          succeeded_count = 0;
          failed_count = 0;
          started_at = started;
          completed_at = none;
        })
          ∷ [];
  })

-- `_run_symbols` and `_complete_run`, when the data source could be created
unfoldable pub run_opened :
    Settings → ℕ → List Text → Result (Unit {0}) → Exec RunState IngestionRunOutcome
run_opened st run_id symbols (err e) = raise e
run_opened st run_id symbols (ok u) = do
  outcomes ← run_symbols st run_id symbols
  finish_run st run_id outcomes

-- the part of `run` that holds the lock, after `_create_run`; without symbols no data source is created
unfoldable pub run_locked : Settings → ℕ → List Text → Exec RunState IngestionRunOutcome
run_locked st run_id [] = finish_run st run_id []
run_locked st run_id (symbol ∷ symbols) = run_opened st run_id (symbol ∷ symbols) st.source_created

-- what the run draws at its beginning
abbrev pub drew_run : RunState → RunState
drew_run s =
    let session = s.session in
    record s {
      session = record session {
        uuids_drawn = session.uuids_drawn + 1;
        instants_drawn = session.instants_drawn + 1;
      };
    }

-- the run with its normalised symbols; `acquired` is the answer of `pg_try_advisory_lock`
unfoldable pub run_set : Settings → Text → Bool → List Text → Exec RunState IngestionRunOutcome
run_set st mode false symbols s = (err ingestion_run_conflict, drew_run s)
run_set st mode true symbols s =
    let session = s.session in
    let run_id = session.world.uuid session.uuids_drawn in
    let started = session.world.clock session.instants_drawn in
    (create_run st run_id mode (length symbols) started >> run_locked st run_id symbols)
      (drew_run s)

unfoldable pub run :
    Settings → Text → Bool → List Text → RunState → Result IngestionRunOutcome × RunState
run st mode acquired symbols s = elim (normalize_symbols symbols) [
  | err e ↦ (err e, s)
  | ok set ↦ run_set st mode acquired set s
]

unfoldable pub run_symbol :
    Settings → Bool → Text → RunState → Result IngestionRunOutcome × RunState
run_symbol st acquired symbol s = elim (normalize_run_symbol symbol) [
  | err e ↦ (err e, s)
  | ok clean ↦ run st (codes "symbol") acquired (clean ∷ []) s
]

unfoldable pub run_active : Settings → Bool → RunState → Result IngestionRunOutcome × RunState
run_active st acquired s = run st (codes "active") acquired (active_symbols s.session.theses) s
