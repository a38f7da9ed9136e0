-- ===== src/MarketData.antt =====
-- app/data_sources/models.py and app/data_sources/fundamental_models.py: the observations that the
-- metrics are calculated from, and their validators.
pub mod Laws
use stock_master.Prelude.{
  ℕ, Text, Bool, ◌&&◌, ◌==◌, length, Option, Result, ok, err, validation_error, if◌then◌else◌,
}
use stock_master.Decimal.{Decimal, ltb_dec, leb_dec, of_ℕ}
use stock_master.Text.{
  strip, lower, upper, is_upper, all_codes, is_symbol, normalize_symbol, length_within,
}
use stock_master.Thesis.{DateTime}

pub data PriceAdjustment : Type 0 where
  raw split_adjusted total_return : PriceAdjustment

abbrev adjustment_index : PriceAdjustment → ℕ
adjustment_index raw = 0
adjustment_index split_adjusted = 1
adjustment_index total_return = 2

abbrev pub same_adjustment : PriceAdjustment → PriceAdjustment → Bool
same_adjustment a b = adjustment_index a == adjustment_index b

-- A `date` is its ordinal.
pub record DailyBar : Type 0 where
  pub observation_id : Option ℕ
  pub symbol : Text
  pub trading_date : ℕ
  pub «open» : Decimal
  pub high : Decimal
  pub low : Decimal
  pub close : Decimal
  pub volume : ℕ
  pub currency : Text
  pub adjustment : PriceAdjustment
  pub source : Text
  pub received_at : DateTime

-- `pattern=r"^[A-Z]{3}$"`
unfoldable pub is_currency : Text → Bool
is_currency s = all_codes is_upper s && (length s == 3)

-- the field constraints and `validate_price_range`: each comparison with a `max` or `min` is a
-- comparison with every one of its arguments
unfoldable pub bar_fits : DailyBar → Bool
bar_fits b =
    is_symbol b.symbol
    && (ltb_dec (of_ℕ 0) b.«open» && ltb_dec (of_ℕ 0) b.high)
    && (ltb_dec (of_ℕ 0) b.low && ltb_dec (of_ℕ 0) b.close)
    && is_currency b.currency
    && length_within 1 50 b.source
    && (leb_dec b.«open» b.high && leb_dec b.close b.high && leb_dec b.low b.high)
    && (leb_dec b.low b.«open» && leb_dec b.low b.close && leb_dec b.low b.high)

-- `DailyBar(...)`
unfoldable pub make_bar : DailyBar → Result DailyBar
make_bar b =
    let clean = record b {
      symbol = normalize_symbol b.symbol;
      currency = strip b.currency;
      source = lower (strip b.source);
    } in
    if bar_fits clean then ok clean else err validation_error

pub record CompanyFundamentals : Type 0 where
  pub observation_id : Option ℕ
  pub snapshot_date : Option ℕ
  pub symbol : Text
  pub latest_quarter : Option ℕ
  pub pe_ratio : Option Decimal
  pub price_to_book_ratio : Option Decimal
  pub ebitda : Option Decimal
  pub currency : Text
  pub source : Text
  pub received_at : DateTime

unfoldable pub fundamentals_fit : CompanyFundamentals → Bool
fundamentals_fit f = is_symbol f.symbol && is_currency f.currency && length_within 1 50 f.source

-- `CompanyFundamentals(...)`
unfoldable pub make_fundamentals : CompanyFundamentals → Result CompanyFundamentals
make_fundamentals f =
    let clean = record f {
      symbol = normalize_symbol f.symbol;
      currency = upper (strip f.currency);
      source = lower (strip f.source);
    } in
    if fundamentals_fit clean then ok clean else err validation_error
