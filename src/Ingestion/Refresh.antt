-- ===== src/Ingestion/Refresh.antt =====
-- app/services/stock_ingestion_service.py: the refresh of one symbol. What the data source answers is
-- an argument.
use stock_master.Prelude.{
  ℕ, Text, List, [], ◌∷◌, not, some, Result, err, value_error, raise_if, if◌then◌else◌, text_eq,
}
use stock_master.Prelude.Exec.{Exec, ◌>>=◌, ◌>>◌, pure, raise, lift, raise_when}
use stock_master.Text.{strip, upper}
use stock_master.Event.{is_empty}
use stock_master.MarketData.{DailyBar, CompanyFundamentals}
use stock_master.Store.{Session}
use stock_master.Store.Stock.{save_daily_bars, save_company_fundamentals}

pub record IngestionResult : Type 0 where
  pub symbol : Text
  pub daily_bars_processed : ℕ
  pub earliest_trading_date : ℕ
  pub latest_trading_date : ℕ
  pub fundamental_snapshot_date : ℕ

-- What the data source answers to one attempt: the bars and the fundamentals, or what it raises. A
-- timeout is what the call raises that it meets.
pub record Answer : Type 0 where
  pub bars : Result (List DailyBar)
  pub fundamentals : Result CompanyFundamentals

-- `_validate_symbols`
unfoldable pub validate_symbols : Text → Text → Text → Result (Unit {0})
validate_symbols requested bars_symbol fundamentals_symbol =
    if text_eq bars_symbol requested
    then raise_if (not (text_eq fundamentals_symbol requested)) value_error
    else err value_error

-- the trading date of `bars[-1]`
unfoldable pub last_date : DailyBar → List DailyBar → ℕ
last_date bar [] = bar.trading_date
last_date bar (next ∷ bars) = last_date next bars

-- the refresh with the bars that were returned
unfoldable pub refresh_bars :
    Result CompanyFundamentals → Text → List DailyBar → Exec Session IngestionResult
refresh_bars answer symbol [] = raise value_error
refresh_bars answer symbol (bar ∷ bars) = do
  fundamentals ← lift answer
  lift (validate_symbols symbol bar.symbol fundamentals.symbol)
  processed ← save_daily_bars (bar ∷ bars)
  save_company_fundamentals fundamentals (some fundamentals.received_at.date)
  pure (record {
    symbol = symbol;
    daily_bars_processed = processed;
    earliest_trading_date = bar.trading_date;
    latest_trading_date = last_date bar bars;
    fundamental_snapshot_date = fundamentals.received_at.date;
  })

unfoldable pub refresh_symbol : Answer → Text → Exec Session IngestionResult
refresh_symbol answer symbol = do
  raise_when (is_empty (upper (strip symbol))) value_error
  bars ← lift answer.bars
  refresh_bars answer.fundamentals (upper (strip symbol)) bars
