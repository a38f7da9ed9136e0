-- ===== src/Metric/Tests.antt =====
-- The theorems on app/domain/metric_calculator.py and app/domain/metric_registry.py at concrete
-- observations, handed over from the latest to the earliest.
use mathlib.Core.List.{reverse}
use mathlib.Core.List.Permᴰ
use stock_master.Prelude.{
  ℕ, ◌≡◌, ◌↔◌, refl, List, [], ◌∷◌, ◌++◌, map, All, Option, none, some, ok, err, codes,
  metric_calculation, arith, false,
}
use stock_master.Prelude.Order.{sorted, insert_sorted, sorted-perm, sorted-IsSorted}
use stock_master.Decimal.{Decimal, of_ℕ, eqb_dec}
use stock_master.Decimal.Arithmetic.{sub, div, mul}
use stock_master.Thesis.{daily_price_change_percent, pe_ratio, ebitda}
use stock_master.MarketData.{DailyBar, CompanyFundamentals, split_adjusted}
use stock_master.Metric.{all_distinct, contains}
use stock_master.Metric.Series.{
  prepare_daily_bars, bar_before, snapshot_before, fundamental_data_as_of,
}
use stock_master.Metric.Series.Laws.{all_distinct_iff}
use stock_master.Metric.Bars.{
  bar_date, bar_key, bar_before-IsOrder, IsBarSeries, Chronological, prepare_daily_bars_exact,
  calculate_daily_price_change_percent_lem, calculate_volume_ratio_20d_lem,
}
use stock_master.Metric.Snapshots.{snapshot_before-IsOrder, IsSnapshotSeries, Chronicle}
use stock_master.Metric.Fundamentals.{
  calculate_current_fundamental_lem, calculate_current_fundamental_unavailable,
  calculate_fundamental_change_lem,
}
use stock_master.Metric.Calculate.{
  volume_ratio, calculate_daily_price_change_percent, calculate_volume_ratio_20d,
  calculate_current_fundamental, calculate_fundamental_change, value_change,
}
use stock_master.Metric.Registry.{
  daily_bars, fundamentals, calculate_daily_metric, calculate_fundamental_metric,
}
use stock_master.Metric.Registry.Laws.{
  Dispatched, calculate_daily_metric-Dispatched, calculate_fundamental_metric-Dispatched,
}
use stock_master.Samples.{day}

abbrev bar : ℕ → DailyBar
bar n = record {
  observation_id = some n;
  symbol = codes "AAPL";
  trading_date = n;
  «open» = of_ℕ 10;
  high = of_ℕ 20;
  low = of_ℕ 10;
  close = of_ℕ n;
  volume = n;
  currency = codes "USD";
  adjustment = split_adjusted;
  source = codes "test";
  received_at = day n;
}

bar_keys : (k : ℕ) (ns : List ℕ) → All (λ b. bar_key (bar k) ≡ bar_key b) (map bar ns)
bar_keys k [] = tt
bar_keys k (n ∷ ns) = (refl, bar_keys k ns)

bar_rows : (xs ns : List ℕ) → All (λ a. All (λ b. bar_key a ≡ bar_key b) (map bar xs)) (map bar ns)
bar_rows xs [] = tt
bar_rows xs (n ∷ ns) = (bar_keys n xs, bar_rows xs ns)

bars-Chronological : (bars : List DailyBar) → Chronological bars (sorted bar_before bars)
bars-Chronological bars = record {
  rearranged = Permᴰ.symm (sorted-perm bar_before bars);
  ordered = sorted-IsSorted bar_before-IsOrder bars;
}

-- the bars of three days, and of twenty-three
abbrev three : List DailyBar
three = map bar (12 ∷ 11 ∷ 10 ∷ [])

abbrev weeks : List ℕ
weeks =
    32 ∷ 31 ∷ 30 ∷ 29 ∷ 28 ∷ 27 ∷ 26 ∷ 25 ∷ 24 ∷ 23 ∷ 22 ∷ 21 ∷ 20 ∷ 19 ∷ 18 ∷ 17 ∷ 16 ∷ 15 ∷ 14
    ∷ 13 ∷ 12 ∷ 11 ∷ 10 ∷ []

abbrev history : List DailyBar
history = map bar (
    12 ∷ 13 ∷ 14 ∷ 15 ∷ 16 ∷ 17 ∷ 18 ∷ 19 ∷ 20 ∷ 21 ∷ 22 ∷ 23 ∷ 24 ∷ 25 ∷ 26 ∷ 27 ∷ 28 ∷ 29 ∷ 30
    ∷ 31 ∷ [])

three-IsBarSeries : IsBarSeries 2 three
unfolding all_distinct contains
three-IsBarSeries = record {
  enough = omega arith;
  one_key = bar_rows (12 ∷ 11 ∷ 10 ∷ []) (12 ∷ 11 ∷ 10 ∷ []);
  dates = (all_distinct_iff bar_date three).0 refl;
}

weeks-IsBarSeries : IsBarSeries 21 (map bar weeks)
unfolding all_distinct contains
weeks-IsBarSeries = record {
  enough = omega arith;
  one_key = bar_rows weeks weeks;
  dates = (all_distinct_iff bar_date (map bar weeks)).0 refl;
}

three-Chronological : Chronological three (map bar (10 ∷ 11 ∷ 12 ∷ []))
unfolding sorted insert_sorted bar_before
three-Chronological = bars-Chronological three

weeks-Chronological :
    Chronological (map bar weeks) (map bar (10 ∷ 11 ∷ []) ++ (history ++ bar 32 ∷ []))
unfolding sorted insert_sorted bar_before
weeks-Chronological = bars-Chronological (map bar weeks)

prepare_daily_bars_exact_example :
    (prepare_daily_bars 2 three ≡ ok (map bar (10 ∷ 11 ∷ 12 ∷ []))) ↔ IsBarSeries 2 three
prepare_daily_bars_exact_example =
    prepare_daily_bars_exact 2 (omega arith) three (map bar (10 ∷ 11 ∷ 12 ∷ [])) three-Chronological

close_nonzero : eqb_dec (bar 11).close (of_ℕ 0) ≡ false
unfolding eqb_dec
close_nonzero = refl

calculate_daily_price_change_percent_lem_example :
    calculate_daily_price_change_percent three
    ≡ ok (record {
      metric = daily_price_change_percent;
      value = mul (div (sub (of_ℕ 12) (of_ℕ 11)) (of_ℕ 11)) (of_ℕ 100);
      data_as_of = 12;
      observation_ids = 11 ∷ 12 ∷ [];
      calculation_version = 1;
    })
calculate_daily_price_change_percent_lem_example =
    calculate_daily_price_change_percent_lem three (bar 10 ∷ []) (bar 11) (bar 12) 11 12
      three-IsBarSeries three-Chronological refl refl (λ e. absurd (omega (arith, e))) close_nonzero

calculate_volume_ratio_20d_lem_example :
    calculate_volume_ratio_20d (map bar weeks) ≡ volume_ratio history (bar 32)
calculate_volume_ratio_20d_lem_example =
    calculate_volume_ratio_20d_lem (map bar weeks) (map bar (10 ∷ 11 ∷ [])) history (bar 32) refl
      weeks-IsBarSeries weeks-Chronological

-- the snapshot of a day, perhaps with a price-earnings ratio
abbrev snapshot : ℕ → Option Decimal → CompanyFundamentals
snapshot n ratio = record {
  observation_id = some n;
  snapshot_date = some n;
  symbol = codes "AAPL";
  latest_quarter = none;
  pe_ratio = ratio;
  price_to_book_ratio = none;
  ebitda = none;
  currency = codes "USD";
  source = codes "test";
  received_at = day n;
}

abbrev ratio_of : CompanyFundamentals → Option Decimal
ratio_of s = s.pe_ratio

abbrev five : List CompanyFundamentals
five =
    snapshot 14 none
    ∷ snapshot 13 (some (of_ℕ 8))
    ∷ snapshot 12 none
    ∷ snapshot 11 (some (of_ℕ 6))
    ∷ snapshot 10 (some (of_ℕ 5))
    ∷ []

five-IsSnapshotSeries : IsSnapshotSeries five
unfolding all_distinct contains fundamental_data_as_of
five-IsSnapshotSeries = record {
  present = λ e. cc;
  one_key = ground arith;
  dates = (all_distinct_iff fundamental_data_as_of five).0 refl;
}

five-Chronicle : Chronicle five (reverse five)
unfolding sorted insert_sorted snapshot_before fundamental_data_as_of
five-Chronicle = record {
  rearranged = Permᴰ.symm (sorted-perm snapshot_before five);
  ordered = sorted-IsSorted snapshot_before-IsOrder five;
}

calculate_current_fundamental_lem_example :
    calculate_current_fundamental pe_ratio ratio_of five
    ≡ ok (record {
      metric = pe_ratio;
      value = of_ℕ 8;
      data_as_of = 13;
      observation_ids = 13 ∷ [];
      calculation_version = 1;
    })
calculate_current_fundamental_lem_example =
    calculate_current_fundamental_lem pe_ratio ratio_of five
      (snapshot 10 (some (of_ℕ 5)) ∷ snapshot 11 (some (of_ℕ 6)) ∷ snapshot 12 none ∷ [])
      (snapshot 14 none ∷ []) (snapshot 13 (some (of_ℕ 8))) (of_ℕ 8) 13 five-IsSnapshotSeries
      five-Chronicle refl (refl, tt) refl

calculate_current_fundamental_unavailable_example :
    (calculate_current_fundamental ebitda (λ s. s.ebitda) five ≡ err metric_calculation)
    ↔ All (λ s. s.ebitda ≡ none) (reverse five)
calculate_current_fundamental_unavailable_example =
    calculate_current_fundamental_unavailable ebitda (λ s. s.ebitda) five (reverse five)
      five-IsSnapshotSeries five-Chronicle
      ((10, refl), ((11, refl), ((12, refl), ((13, refl), ((14, refl), tt)))))

calculate_fundamental_change_lem_example :
    calculate_fundamental_change pe_ratio ratio_of five
    ≡ value_change pe_ratio ratio_of
        (snapshot 11 (some (of_ℕ 6)), of_ℕ 6)
        (snapshot 13 (some (of_ℕ 8)), of_ℕ 8)
calculate_fundamental_change_lem_example =
    calculate_fundamental_change_lem pe_ratio ratio_of five (snapshot 10 (some (of_ℕ 5)) ∷ [])
      (snapshot 12 none ∷ []) (snapshot 14 none ∷ []) (snapshot 11 (some (of_ℕ 6)))
      (snapshot 13 (some (of_ℕ 8))) (of_ℕ 6) (of_ℕ 8) five-IsSnapshotSeries five-Chronicle refl refl
      (refl, tt) (refl, tt)

calculate_daily_metric-Dispatched_example :
    Dispatched daily_bars daily_price_change_percent 3
      (calculate_daily_metric daily_price_change_percent three)
calculate_daily_metric-Dispatched_example =
    calculate_daily_metric-Dispatched daily_price_change_percent three

calculate_fundamental_metric-Dispatched_example :
    Dispatched fundamentals pe_ratio 5 (calculate_fundamental_metric pe_ratio five)
calculate_fundamental_metric-Dispatched_example =
    calculate_fundamental_metric-Dispatched pe_ratio five
