-- ===== src/Store/Stock/Recent.antt =====
-- `get_recent_daily_bars` of app/database/repositories.py hands the metric calculators of
-- app/domain/metric_calculator.py a series that they accept.
use mathlib.Core.List.Permᴰ
use stock_master.Prelude.{
  ℕ, ◌≡◌, ◌≤◌, sym, ap, ◌∙◌, Text, List, [], ◌∷◌, true, false, leb, ok, value_error, not, ◌&&◌,
  keep, keep-case, take, All, All-take, All-weaken, All-Memᴰ, All-of_Memᴰ, length-take, length-perm,
  length, arith, text_eq→eq,
}
use stock_master.Prelude.Order.{sorted, sorted-perm}
use stock_master.Prelude.Order.Distinct.{Apart, Distinct, Distinct-perm, Distinct-take, All-perm}
use stock_master.Prelude.Upsert.{Unique}
use stock_master.Prelude.Reading.{Reads, read_all-Reads, Reads-All, Reads-Distinct, Reads-length}
use stock_master.Prelude.Exec.{bind-eq-ok, lift, raise_when}
use stock_master.Text.{normalize_symbol, lower, strip}
use stock_master.MarketData.{DailyBar, PriceAdjustment, make_bar}
use stock_master.MarketData.Laws.{make_bar-fields, same_adjustment→eq}
use stock_master.Metric.Series.Laws.{Uniform}
use stock_master.Metric.Bars.{IsBarSeries, bar_date, bar_key}
use stock_master.Store.{Session}
use stock_master.Store.Stock.Rows.{same_bar, normalize_stock_symbol, normalize_source, read_bars}
use stock_master.Store.Stock.{of_series, latest_bar_first, recent_rows, get_recent_daily_bars}
use stock_master.Store.Stock.Keys.{same_bar_of_eq}

module _ (symbol source : Text) (adjustment : PriceAdjustment) where
  -- A row of the series.
  record OfSeries (row : DailyBar) : Type 0 where
    symbol_of : row.symbol ≡ symbol
    source_of : row.source ≡ source
    adjustment_of : row.adjustment ≡ adjustment

  of_series-OfSeries :
      (row : DailyBar) → of_series symbol source adjustment row ≡ true → OfSeries row
  unfolding of_series
  of_series-OfSeries row h = record {
    symbol_of = text_eq→eq row.symbol symbol (ground arith);
    source_of = text_eq→eq row.source source (ground arith);
    adjustment_of = same_adjustment→eq row.adjustment adjustment (ground arith);
  }

  abbrev kept : List DailyBar → List DailyBar
  kept rows = keep (of_series symbol source adjustment) rows

  kept-OfSeries : (rows : List DailyBar) → All OfSeries (kept rows)
  kept-OfSeries [] = tt
  kept-OfSeries (x ∷ xs) =
      keep-case (All OfSeries) (of_series symbol source adjustment) x xs
        (λ e. (of_series-OfSeries x e, kept-OfSeries xs)) (λ e. kept-OfSeries xs)

  OfSeries-Apart :
      (a b : DailyBar) → OfSeries a → OfSeries b → same_bar a b ≡ false → Apart bar_date a b
  OfSeries-Apart a b p r h date =
      let same =
        same_bar_of_eq a b (p.symbol_of ∙ sym r.symbol_of) date (p.source_of ∙ sym r.source_of)
          (p.adjustment_of ∙ sym r.adjustment_of) in
      absurd (ground (arith, h, same))

  kept-Apart :
      (a : DailyBar) (rows : List DailyBar)
      → OfSeries a
      → All (λ y. same_bar a y ≡ false) rows
      → All (Apart bar_date a) (kept rows)
  kept-Apart a [] p h = tt
  kept-Apart a (x ∷ xs) p h =
      keep-case (All (Apart bar_date a)) (of_series symbol source adjustment) x xs
        (λ e. (OfSeries-Apart a x p (of_series-OfSeries x e) h.0, kept-Apart a xs p h.1))
        (λ e. kept-Apart a xs p h.1)

  kept-Distinct : (rows : List DailyBar) → Unique same_bar rows → Distinct bar_date (kept rows)
  kept-Distinct [] u = tt
  kept-Distinct (x ∷ xs) u =
      keep-case (Distinct bar_date) (of_series symbol source adjustment) x xs
        (λ e. (kept-Apart x xs (of_series-OfSeries x e) u.0, kept-Distinct xs u.1))
        (λ e. kept-Distinct xs u.1)

  module _ (limit : ℕ) (rows : List DailyBar) where
    abbrev window : List DailyBar
    window = take limit (sorted latest_bar_first (kept rows))

    recent_rows-length : length (recent_rows symbol source adjustment limit rows) ≤ limit
    unfolding recent_rows
    recent_rows-length = omega (
      arith,
      length-perm (Permᴰ.reverse window),
      length-take limit (sorted latest_bar_first (kept rows)),
    )

    recent_rows-OfSeries : All OfSeries (recent_rows symbol source adjustment limit rows)
    unfolding recent_rows
    recent_rows-OfSeries = All-perm OfSeries (Permᴰ.symm (Permᴰ.reverse window)) (
        All-take OfSeries limit _ (
          All-perm OfSeries (Permᴰ.symm (sorted-perm latest_bar_first (kept rows)))
            (kept-OfSeries rows)))

    recent_rows-Distinct :
        Unique same_bar rows → Distinct bar_date (recent_rows symbol source adjustment limit rows)
    unfolding recent_rows
    recent_rows-Distinct u = Distinct-perm bar_date (Permᴰ.symm (Permᴰ.reverse window)) (
        Distinct-take bar_date limit _ (
          Distinct-perm bar_date (Permᴰ.symm (sorted-perm latest_bar_first (kept rows)))
            (kept-Distinct rows u)))

  -- What the reader makes of a row of the series.
  ReadKey : DailyBar → Type 0
  ReadKey bar = bar_key bar ≡ (normalize_symbol symbol, lower (strip source), adjustment)

  make_bar-ReadKey : (row bar : DailyBar) → make_bar row ≡ ok bar → OfSeries row → ReadKey bar
  unfolding ReadKey
  make_bar-ReadKey row bar m p =
      let (a, b, c, _, _) = make_bar-fields row bar m in
      simp (a, b, c, p.symbol_of, p.source_of, p.adjustment_of)

  ReadKey-Uniform : (bars : List DailyBar) → All ReadKey bars → Uniform bar_key bars
  unfolding ReadKey
  ReadKey-Uniform bars h =
      All-of_Memᴰ (λ a. All (λ b. bar_key a ≡ bar_key b) bars) bars
        (λ a m.
          All-weaken ReadKey (λ b. bar_key a ≡ bar_key b) bars (λ b k. All-Memᴰ ReadKey h m ∙ sym k)
            h)

make_bar-date : (row bar : DailyBar) → make_bar row ≡ ok bar → bar_date bar ≡ bar_date row
make_bar-date row bar m = let (_, _, _, date, _) = make_bar-fields row bar m in date

pub get_recent_daily_bars-ok :
    (symbol source : Text) (adjustment : PriceAdjustment) (limit : ℕ) (s s' : Session)
    (bars : List DailyBar)
    → get_recent_daily_bars symbol source adjustment limit s ≡ (ok bars, s')
    → (clean_symbol clean_source : Text) × (read_bars
          (recent_rows clean_symbol clean_source adjustment limit s.daily_bars)
        ≡ ok bars)
      × (s' ≡ s)
unfolding get_recent_daily_bars
get_recent_daily_bars-ok symbol source adjustment limit s s' bars h =
    let (clean_symbol, _, k1) = bind-eq-ok (lift (normalize_stock_symbol symbol)) _ s h in
    let (clean_source, _, k2) = bind-eq-ok (lift (normalize_source source)) _ s k1 in
    let (_, _, k3) =
      bind-eq-ok (raise_when (not (leb 1 limit && leb limit 1000)) value_error) _ s k2 in
    (clean_symbol, clean_source, ap (λ p. p.0) k3, sym (ap (λ p. p.1) k3))

-- When no two rows of the table have one symbol, date, source and adjustment, the recent bars that are
-- listed are a series that the preparation step of the calculators accepts for every number of
-- observations up to theirs. They are no more than the limit, and the session is unchanged.
pub get_recent_daily_bars-IsBarSeries :
    (symbol source : Text) (adjustment : PriceAdjustment) (limit minimum : ℕ) (s s' : Session)
    (bars : List DailyBar)
    → Unique same_bar s.daily_bars
    → get_recent_daily_bars symbol source adjustment limit s ≡ (ok bars, s')
    → minimum ≤ length bars
    → IsBarSeries minimum bars × (length bars ≤ limit) × (s' ≡ s)
unfolding read_bars
get_recent_daily_bars-IsBarSeries symbol source adjustment limit minimum s s' bars u h enough =
    let (a, b, read, same) = get_recent_daily_bars-ok symbol source adjustment limit s s' bars h in
    let rows = recent_rows a b adjustment limit s.daily_bars in
    let reads : Reads make_bar rows bars = read_all-Reads make_bar rows bars read in
    let keys =
      Reads-All (OfSeries a b adjustment) (ReadKey a b adjustment) (make_bar-ReadKey a b adjustment)
        reads (recent_rows-OfSeries a b adjustment limit s.daily_bars) in
    (
      record {
        enough = enough;
        one_key = ReadKey-Uniform a b adjustment bars keys;
        dates =
            Reads-Distinct bar_date make_bar-date reads
              (recent_rows-Distinct a b adjustment limit s.daily_bars u);
      },
      omega (arith, Reads-length reads, recent_rows-length a b adjustment limit s.daily_bars),
      same,
    )
