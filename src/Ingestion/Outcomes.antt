-- ===== src/Ingestion/Outcomes.antt =====
-- app/services/ingestion_runner.py: the symbols of a run, and the sanitized outcomes of its items.
use stock_master.Prelude.{
  ℕ, Text, List, [], ◌∷◌, Bool, true, false, ◌&&◌, ◌||◌, ◌==◌, ltb, Option, none, some, Result, ok,
  err, Error, value_error, validation_error, timeout_error, if◌then◌else◌, text_eq, codes,
}
use stock_master.Text.{strip, upper, is_symbol}
use stock_master.Thesis.{DateTime, InvestmentThesis, active, challenged, same_status}
use stock_master.Ingestion.Refresh.{IngestionResult}

pub record SymbolIngestionOutcome : Type 0 where
  pub symbol : Text
  pub succeeded : Bool
  pub daily_bars_processed : ℕ
  pub fundamental_snapshot_date : Option ℕ
  pub error_code : Option Text
  pub error_message : Option Text

pub record IngestionRunOutcome : Type 0 where
  pub run_id : ℕ
  pub source : Text
  pub status : Text
  pub requested_count : ℕ
  pub succeeded_count : ℕ
  pub failed_count : ℕ
  pub items : List SymbolIngestionOutcome

-- a row of `ingestion_runs`
pub record IngestionRun : Type 0 where
  pub id : ℕ
  pub source : Text
  pub mode : Text
  pub status : Text
  pub requested_count : ℕ
  pub succeeded_count : ℕ
  pub failed_count : ℕ
  pub started_at : DateTime
  pub completed_at : Option DateTime

-- a row of `ingestion_run_items`
pub record IngestionRunItem : Type 0 where
  pub id : ℕ
  pub run_id : ℕ
  pub outcome : SymbolIngestionOutcome
  pub started_at : DateTime
  pub completed_at : DateTime

-- `_normalize_symbol`
unfoldable pub normalize_run_symbol : Text → Result Text
normalize_run_symbol symbol =
    let normalized = upper (strip symbol) in
    if is_symbol normalized then ok normalized else err value_error

-- `a < b` of strings
unfoldable pub text_before : Text → Text → Bool
text_before [] [] = false
text_before [] (b ∷ t) = true
text_before (a ∷ s) [] = false
text_before (a ∷ s) (b ∷ t) = ltb a b || ((a == b) && text_before s t)

-- a member of a sorted set
unfoldable pub add_symbol : Text → List Text → List Text
add_symbol symbol [] = symbol ∷ []
add_symbol symbol (x ∷ xs) =
    let rest = add_symbol symbol xs in
    if text_eq symbol x then x ∷ xs else if text_before symbol x then symbol ∷ x ∷ xs else x ∷ rest

-- `sorted({self._normalize_symbol(value) for value in symbols})`
unfoldable pub normalize_symbols : List Text → Result (List Text)
normalize_symbols [] = ok []
normalize_symbols (symbol ∷ symbols) =
    let others = normalize_symbols symbols in
    elim (normalize_run_symbol symbol) [
      | err e ↦ err e
      | ok clean ↦ elim others [ err e ↦ err e | ok set ↦ ok (add_symbol clean set) ]
    ]

unfoldable pub error_code : Option Error → Text
error_code (some timeout_error) = codes "data_source_timeout"
error_code (some value_error) = codes "invalid_provider_data"
error_code (some validation_error) = codes "invalid_provider_data"
error_code _ = codes "data_source_failure"

unfoldable pub safe_error_message : Option Error → Text
safe_error_message (some timeout_error) =
    codes "The provider request exceeded the configured timeout."
safe_error_message (some value_error) =
    codes "The provider returned data that could not be accepted."
safe_error_message (some validation_error) =
    codes "The provider returned data that could not be accepted."
safe_error_message _ = codes "The provider request failed."

-- the `SELECT DISTINCT` of `run_active`
unfoldable pub active_symbols : List InvestmentThesis → List Text
active_symbols [] = []
active_symbols (t ∷ ts) =
    let others = active_symbols ts in
    if same_status t.status active || same_status t.status challenged
    then add_symbol t.symbol others
    else others

unfoldable pub success_of : Text → IngestionResult → SymbolIngestionOutcome
success_of symbol result = record {
  symbol = symbol;
  succeeded = true;
  daily_bars_processed = result.daily_bars_processed;
  fundamental_snapshot_date = some result.fundamental_snapshot_date;
  error_code = none;
  error_message = none;
}

unfoldable pub failure_of : Text → Option Error → SymbolIngestionOutcome
failure_of symbol last = record {
  symbol = symbol;
  succeeded = false;
  daily_bars_processed = 0;
  fundamental_snapshot_date = none;
  error_code = some (error_code last);
  error_message = some (safe_error_message last);
}

unfoldable pub circuit_open : Text → SymbolIngestionOutcome
circuit_open symbol = record {
  symbol = symbol;
  succeeded = false;
  daily_bars_processed = 0;
  fundamental_snapshot_date = none;
  error_code = some (codes "provider_circuit_open");
  error_message = some (codes "Provider circuit opened after repeated failures.");
}
