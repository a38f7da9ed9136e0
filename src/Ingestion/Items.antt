-- ===== src/Ingestion/Items.antt =====
-- app/services/ingestion_runner.py: the items of a run, under the constraints of ingestion_run_items in
-- app/database/domain_tables.py.
use stock_master.Prelude.{
  ℕ, ◌+◌, Text, List, [], ◌∷◌, ◌++◌, Bool, false, ◌&&◌, ◌||◌, not, ◌==◌, ltb, length, Result, ok,
  err, integrity_error, data_error, if◌then◌else◌, text_eq,
}
use stock_master.Store.{Session}
use stock_master.Ingestion.Outcomes.{SymbolIngestionOutcome, IngestionRun, IngestionRunItem}

-- the tables, the attempts made so far, and `_consecutive_failures`
pub record RunState : Type 0 where
  pub session : Session
  pub runs : List IngestionRun
  pub items : List IngestionRunItem
  pub attempts : ℕ
  pub consecutive_failures : ℕ

-- a row of `ingestion_runs` has the id
unfoldable pub has_run : ℕ → List IngestionRun → Bool
has_run run_id [] = false
has_run run_id (row ∷ rows) = (row.id == run_id) || has_run run_id rows

-- a row of `ingestion_run_items` has the run and the symbol
unfoldable pub has_item : ℕ → Text → List IngestionRunItem → Bool
has_item run_id symbol [] = false
has_item run_id symbol (row ∷ rows) =
    ((row.run_id == run_id) && text_eq row.outcome.symbol symbol) || has_item run_id symbol rows

-- the constraints of a row of `ingestion_run_items`: the length of its symbol, one row for a symbol of a
-- run, and the run's row
unfoldable pub item_fits : ℕ → Text → List IngestionRun → List IngestionRunItem → Result (Unit {0})
item_fits run_id symbol runs items =
    if ltb 15 (length symbol)
    then err data_error
    else if has_item run_id symbol items || not (has_run run_id runs)
    then err integrity_error
    else ok tt

-- what the constructor of an item draws
unfoldable pub drew_item : RunState → RunState
drew_item s =
    let session = s.session in
    record s {
      session = record session {
        uuids_drawn = session.uuids_drawn + 1;
        instants_drawn = session.instants_drawn + 2;
      };
    }

-- the row of an outcome
unfoldable pub item_of : ℕ → SymbolIngestionOutcome → Session → IngestionRunItem
item_of run_id outcome session = record {
  id = session.world.uuid session.uuids_drawn;
  run_id = run_id;
  outcome = outcome;
  started_at = session.world.clock session.instants_drawn;
  completed_at = session.world.clock (session.instants_drawn + 1);
}

-- the INSERT of a row, when its constraints hold
unfoldable pub insert_item :
    IngestionRunItem → Result (Unit {0}) → RunState → Result (Unit {0}) × RunState
insert_item row (err e) s = (err e, s)
insert_item row (ok u) s = (ok tt, record s { items = s.items ++ row ∷ [] })

-- `_save_success_item` and `_save_failed_item`
unfoldable pub save_item : ℕ → SymbolIngestionOutcome → RunState → Result (Unit {0}) × RunState
save_item run_id outcome s =
    insert_item (item_of run_id outcome s.session) (item_fits run_id outcome.symbol s.runs s.items)
      (drew_item s)
