-- ===== src/Store/Stock/Rows.antt =====
-- app/database/repositories.py: the rows that the tables of app/database/tables.py store of bars and
-- fundamentals.
use stock_master.Prelude.{
  ℕ, ◌^◌, Text, List, [], ◌∷◌, Bool, true, false, ◌&&◌, not, ◌==◌, ltb, length, Option, none, some,
  Result, ok, err, value_error, integrity_error, data_error, raise_if, or_raise, if◌then◌else◌,
  ◌>>=◌, ◌>>◌, text_eq,
}
use stock_master.Prelude.Reading.{read_all}
use stock_master.Decimal.{Decimal, ltb_dec, leb_dec, of_ℕ}
use stock_master.Text.{strip, lower, upper}
use stock_master.Event.{is_empty}
use stock_master.MarketData.{
  DailyBar, same_adjustment, make_bar, CompanyFundamentals, make_fundamentals,
}
use stock_master.Store.{World}

-- `StockDataRepository._normalize_symbol`
unfoldable pub normalize_stock_symbol : Text → Result Text
normalize_stock_symbol symbol =
    let normalized = upper (strip symbol) in
    if is_empty normalized then err value_error else ok normalized

-- `StockDataRepository._normalize_source`
unfoldable pub normalize_source : Text → Result Text
normalize_source source =
    let normalized = lower (strip source) in
    if is_empty normalized
    then err value_error
    else if ltb 50 (length normalized)
    then err value_error
    else ok normalized

-- the unique key `daily_bar_identity`
unfoldable pub same_bar : DailyBar → DailyBar → Bool
same_bar a b =
    text_eq a.symbol b.symbol
    && (a.trading_date == b.trading_date)
    && text_eq a.source b.source
    && same_adjustment a.adjustment b.adjustment

-- the CHECK constraints of `daily_bars`
unfoldable pub bar_row_fits : DailyBar → Bool
bar_row_fits b =
    ltb_dec (of_ℕ 0) b.«open»
    && ltb_dec (of_ℕ 0) b.high
    && ltb_dec (of_ℕ 0) b.low
    && (leb_dec b.«open» b.high && leb_dec b.close b.high && leb_dec b.low b.high)
    && (leb_dec b.low b.«open» && leb_dec b.low b.close && leb_dec b.low b.high)

-- what a column of prices stores
unfoldable pub stored_price : World → Decimal → Result Decimal
stored_price world price = or_raise (world.price_numeric price) data_error

-- what the `BIGINT` of the volume stores
unfoldable pub stored_volume : ℕ → Result ℕ
stored_volume volume = if ltb volume (2 ^ 63) then ok volume else err data_error

-- the row of one bar
unfoldable pub stored_bar : World → DailyBar → Result DailyBar
stored_bar world bar = do
  source ← normalize_source bar.source
  «open» ← stored_price world bar.«open»
  high ← stored_price world bar.high
  low ← stored_price world bar.low
  close ← stored_price world bar.close
  volume ← stored_volume bar.volume
  let row = record bar {
    source = source;
    «open» = «open»;
    high = high;
    low = low;
    close = close;
    volume = volume;
  }
  raise_if (not (bar_row_fits row)) integrity_error
  ok row

unfoldable pub stored_bars : World → List DailyBar → Result (List DailyBar)
stored_bars world [] = ok []
stored_bars world (bar ∷ bars) = do
  row ← stored_bar world bar
  rows ← stored_bars world bars
  ok (row ∷ rows)

-- a row of the list has the key
unfoldable pub some_same_bar : DailyBar → List DailyBar → Bool
some_same_bar bar [] = false
some_same_bar bar (row ∷ rows) = elim (same_bar bar row) [
  | true ↦ true
  | false ↦ some_same_bar bar rows
]

-- two rows of one statement have one key: `DO UPDATE` may not change a row twice
unfoldable pub some_twice : List DailyBar → Bool
some_twice [] = false
some_twice (row ∷ rows) = elim (some_same_bar row rows) [ true ↦ true | false ↦ some_twice rows ]

-- `[self._daily_bar_from_row(row) for row in rows]`
unfoldable pub read_bars : List DailyBar → Result (List DailyBar)
read_bars rows = read_all make_bar rows

-- the unique key `fundamental_snapshot_identity`; `snapshot_date` is never NULL in the table
unfoldable pub same_date : Option ℕ → Option ℕ → Bool
same_date none none = true
same_date (some a) (some b) = a == b
same_date _ _ = false

unfoldable pub same_snapshot : CompanyFundamentals → CompanyFundamentals → Bool
unfolding same_date
same_snapshot a b =
    text_eq a.symbol b.symbol
    && same_date a.snapshot_date b.snapshot_date
    && text_eq a.source b.source

-- what a nullable column of ratios stores
unfoldable pub stored_ratio : World → Option Decimal → Result (Option Decimal)
stored_ratio world none = ok none
stored_ratio world (some value) = do
  stored ← or_raise (world.ratio_numeric value) data_error
  ok (some stored)

-- the row of one snapshot at its date
unfoldable pub stored_snapshot : World → CompanyFundamentals → ℕ → Result CompanyFundamentals
stored_snapshot world f date = do
  source ← normalize_source f.source
  pe ← stored_ratio world f.pe_ratio
  pb ← stored_ratio world f.price_to_book_ratio
  ebitda ← stored_ratio world f.ebitda
  ok (record f {
    source = source;
    snapshot_date = some date;
    pe_ratio = pe;
    price_to_book_ratio = pb;
    ebitda = ebitda;
  })

-- `[self._fundamentals_from_row(row) for row in rows]`
unfoldable pub read_snapshots : List CompanyFundamentals → Result (List CompanyFundamentals)
read_snapshots rows = read_all make_fundamentals rows
