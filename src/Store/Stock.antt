-- ===== src/Store/Stock.antt =====
-- app/database/repositories.py: the persisted daily bars and fundamental snapshots.
pub mod Rows
pub mod Keys
pub mod Recent
pub mod Saved
mod Tests
use mathlib.Core.List.{reverse}
use stock_master.Prelude.{
  ℕ, ◌+◌, Text, List, [], ◌∷◌, Bool, true, false, ◌&&◌, ◌||◌, not, ◌==◌, leb, ltb, length, map,
  Option, none, some, Result, ok, err, value_error, cardinality_violation, if◌then◌else◌, keep,
  take, text_eq,
}
use stock_master.Prelude.Order.{sorted}
use stock_master.Prelude.Upsert.{upsert}
use stock_master.Prelude.Exec.{Exec, ◌>>=◌, ◌>>◌, pure, lift, gets, modify, raise_when}
use stock_master.Event.{is_empty}
use stock_master.MarketData.{DailyBar, PriceAdjustment, same_adjustment, CompanyFundamentals}
use stock_master.Store.{Session, World, uuid4}
use stock_master.Store.Stock.Rows.{
  normalize_stock_symbol, normalize_source, same_bar, stored_bars, some_twice, read_bars,
  same_snapshot, stored_snapshot, read_snapshots,
}

-- `set_`: the row keeps its identifier
unfoldable pub merge_bar : DailyBar → DailyBar → DailyBar
merge_bar old new = record new { observation_id = old.observation_id }

-- `default=uuid4`, for each row of the statement
unfoldable pub number_bars : (ℕ → ℕ) → ℕ → List DailyBar → List DailyBar
number_bars uuid drawn [] = []
number_bars uuid drawn (row ∷ rows) =
    record row { observation_id = some (uuid drawn) } ∷ number_bars uuid (drawn + 1) rows

-- the rows of a statement, one after the other
unfoldable pub upsert_bars : List DailyBar → List DailyBar → List DailyBar
upsert_bars [] rows = rows
upsert_bars (bar ∷ bars) rows = upsert_bars bars (upsert same_bar merge_bar bar rows)

unfoldable pub put_bars : List DailyBar → Exec Session Unit
put_bars bars = modify (λ s. record s {
  uuids_drawn = s.uuids_drawn + length bars;
  daily_bars = upsert_bars (number_bars s.world.uuid s.uuids_drawn bars) s.daily_bars;
})

-- the statement for bars that are there
unfoldable pub insert_bars : List DailyBar → Exec Session ℕ
insert_bars bars = do
  stored ← gets (λ s. stored_bars s.world bars)
  rows ← lift stored
  raise_when (some_twice rows) cardinality_violation
  put_bars rows
  pure (length bars)

unfoldable pub save_daily_bars : List DailyBar → Exec Session ℕ
save_daily_bars bars = if is_empty bars then pure 0 else insert_bars bars

-- `WHERE symbol AND source AND adjustment`
unfoldable pub of_series : Text → Text → PriceAdjustment → DailyBar → Bool
of_series symbol source adjustment row =
    text_eq row.symbol symbol
    && text_eq row.source source
    && same_adjustment row.adjustment adjustment

-- `ORDER BY trading_date DESC`
unfoldable pub latest_bar_first : DailyBar → DailyBar → Bool
latest_bar_first a b = leb b.trading_date a.trading_date

unfoldable pub recent_rows : Text → Text → PriceAdjustment → ℕ → List DailyBar → List DailyBar
recent_rows symbol source adjustment limit rows =
    reverse (take limit (sorted latest_bar_first (keep (of_series symbol source adjustment) rows)))

unfoldable pub get_recent_daily_bars :
    Text → Text → PriceAdjustment → ℕ → Exec Session (List DailyBar)
get_recent_daily_bars symbol source adjustment limit = do
  clean_symbol ← lift (normalize_stock_symbol symbol)
  clean_source ← lift (normalize_source source)
  raise_when (not (leb 1 limit && leb limit 1000)) value_error
  rows ← gets (λ s. recent_rows clean_symbol clean_source adjustment limit s.daily_bars)
  lift (read_bars rows)

-- `set_`: the row keeps its identifier
unfoldable pub merge_snapshot : CompanyFundamentals → CompanyFundamentals → CompanyFundamentals
merge_snapshot old new = record new { observation_id = old.observation_id }

-- `snapshot_date if snapshot_date is not None else fundamentals.received_at.date()`
unfoldable pub effective_snapshot_date : CompanyFundamentals → Option ℕ → ℕ
effective_snapshot_date f none = f.received_at.date
effective_snapshot_date f (some date) = date

unfoldable pub save_company_fundamentals : CompanyFundamentals → Option ℕ → Exec Session Unit
save_company_fundamentals f date = do
  stored ← gets (λ s. stored_snapshot s.world f (effective_snapshot_date f date))
  row ← lift stored
  id ← uuid4
  modify (λ s. record s {
    fundamentals =
        upsert same_snapshot merge_snapshot (record row { observation_id = some id })
          s.fundamentals;
  })

unfoldable pub of_company : Text → Text → CompanyFundamentals → Bool
of_company symbol source row = text_eq row.symbol symbol && text_eq row.source source

unfoldable pub date_of_row : CompanyFundamentals → ℕ
date_of_row row = elim row.snapshot_date [ none ↦ 0 | some d ↦ d ]

-- `ORDER BY snapshot_date DESC, received_at DESC`
unfoldable pub latest_snapshot_first : CompanyFundamentals → CompanyFundamentals → Bool
latest_snapshot_first a b =
    ltb (date_of_row b) (date_of_row a)
    || ((date_of_row a == date_of_row b) && leb b.received_at.instant a.received_at.instant)

unfoldable pub snapshot_rows : Text → Text → ℕ → List CompanyFundamentals → List CompanyFundamentals
snapshot_rows symbol source limit rows =
    reverse (take limit (sorted latest_snapshot_first (keep (of_company symbol source) rows)))

unfoldable pub get_company_fundamentals_history :
    Text → Text → ℕ → Exec Session (List CompanyFundamentals)
get_company_fundamentals_history symbol source limit = do
  clean_symbol ← lift (normalize_stock_symbol symbol)
  clean_source ← lift (normalize_source source)
  raise_when (not (leb 1 limit && leb limit 1000)) value_error
  rows ← gets (λ s. snapshot_rows clean_symbol clean_source limit s.fundamentals)
  lift (read_snapshots rows)

-- `history[0] if history else None`
unfoldable pub first_snapshot : List CompanyFundamentals → Option CompanyFundamentals
first_snapshot [] = none
first_snapshot (f ∷ fs) = some f

unfoldable pub get_latest_company_fundamentals :
    Text → Text → Exec Session (Option CompanyFundamentals)
get_latest_company_fundamentals symbol source = do
  history ← get_company_fundamentals_history symbol source 1
  pure (first_snapshot history)
