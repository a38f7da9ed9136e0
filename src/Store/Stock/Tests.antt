-- ===== src/Store/Stock/Tests.antt =====
-- The theorems on app/database/repositories.py, at bars of two days.
use stock_master.Prelude.{
  ℕ, ◌≡◌, ◌≤◌, refl, List, [], ◌∷◌, All, ok, some, none, codes, length, arith, text_eq,
}
use stock_master.Prelude.Order.{sorted, insert_sorted}
use stock_master.Prelude.Reading.{read_all}
use stock_master.Prelude.Upsert.{Unique, upsert}
use stock_master.Decimal.{of_ℕ, ltb_dec, leb_dec}
use stock_master.Text.{
  is_symbol, length_within, normalize_symbol, is_space, strip, lower, upper, all_codes, is_upper,
}
use stock_master.MarketData.{DailyBar, CompanyFundamentals, raw, make_bar, bar_fits, is_currency}
use stock_master.Metric.Bars.{IsBarSeries}
use stock_master.Store.{Session}
use stock_master.Store.Stock.Rows.{
  normalize_stock_symbol, normalize_source, same_bar, same_snapshot, stored_bar, stored_bars,
  some_twice, some_same_bar, stored_price, stored_volume, bar_row_fits, read_bars,
}
use stock_master.Store.Stock.{
  save_daily_bars, insert_bars, put_bars, number_bars, upsert_bars, merge_bar,
  get_recent_daily_bars, recent_rows, of_series, latest_bar_first, save_company_fundamentals,
}
use stock_master.Store.Stock.Keys.{save_daily_bars-Unique, save_company_fundamentals-Unique}
use stock_master.Store.Stock.Recent.{get_recent_daily_bars-IsBarSeries}
use stock_master.Store.Stock.Saved.{IsSaved, save_daily_bars-IsSaved}
use stock_master.Store.Theses.Timeline.{empty_session}
use stock_master.Samples.{a_world, day, bar_on}

abbrev start : Session
start = empty_session a_world 0 0

-- two days, the later first
abbrev bars : List DailyBar
bars = bar_on 202 ∷ bar_on 201 ∷ []

abbrev after : Session
after = (save_daily_bars bars start).1

-- the rows of the two days
abbrev row_on : ℕ → ℕ → DailyBar
row_on id n = record (bar_on n) { observation_id = some id; source = codes "test" }

abbrev stored : Session
stored = record start { uuids_drawn = 2; daily_bars = row_on 1000 202 ∷ row_on 1001 201 ∷ [] }

saved : save_daily_bars bars start ≡ (ok 2, stored)
unfolding save_daily_bars insert_bars put_bars number_bars upsert_bars upsert same_bar stored_bars
    stored_bar normalize_source stored_price stored_volume bar_row_fits some_twice some_same_bar
    strip lower is_space merge_bar text_eq ltb_dec leb_dec
saved = refl

save_daily_bars-Unique_example : Unique same_bar after.daily_bars
save_daily_bars-Unique_example = save_daily_bars-Unique bars start tt

save_daily_bars-IsSaved_example :
    All (IsSaved start.world stored.daily_bars) bars × (2 ≡ length bars)
save_daily_bars-IsSaved_example = save_daily_bars-IsSaved bars start stored 2 saved

stored-Unique : Unique same_bar stored.daily_bars
unfolding same_bar text_eq
stored-Unique = ((refl, tt), (tt, tt))

-- the earlier first
listed :
    get_recent_daily_bars (codes "aapl") (codes "TEST ") raw 21 stored
    ≡ (ok (row_on 1001 201 ∷ row_on 1000 202 ∷ []), stored)
unfolding get_recent_daily_bars normalize_stock_symbol normalize_source strip lower upper is_space
    recent_rows of_series latest_bar_first sorted insert_sorted text_eq read_bars read_all make_bar
    bar_fits is_currency normalize_symbol is_symbol length_within all_codes is_upper ltb_dec leb_dec
listed = refl

get_recent_daily_bars-IsBarSeries_example :
    IsBarSeries 2 (row_on 1001 201 ∷ row_on 1000 202 ∷ [])
    × (length (row_on 1001 201 ∷ row_on 1000 202 ∷ []) ≤ 21)
    × (stored ≡ stored)
get_recent_daily_bars-IsBarSeries_example =
    get_recent_daily_bars-IsBarSeries (codes "aapl") (codes "TEST ") raw 21 2 stored stored
      (row_on 1001 201 ∷ row_on 1000 202 ∷ []) stored-Unique listed (omega arith)

abbrev report : CompanyFundamentals
report = record {
  observation_id = none;
  snapshot_date = none;
  symbol = codes "AAPL";
  latest_quarter = none;
  pe_ratio = some (of_ℕ 30);
  price_to_book_ratio = none;
  ebitda = none;
  currency = codes "USD";
  source = codes "test";
  received_at = day 200;
}

save_company_fundamentals-Unique_example :
    Unique same_snapshot (save_company_fundamentals report none start).1.fundamentals
save_company_fundamentals-Unique_example = save_company_fundamentals-Unique report none start tt
