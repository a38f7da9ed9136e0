-- ===== src/Metric/Bars.antt =====
-- The daily-bar calculators of app/domain/metric_calculator.py over a chronological listing.
use mathlib.Core.List.{Permᴰ}
use mathlib.Core.List.Permᴰ
use stock_master.Prelude.{
  ℕ, ◌-◌, ◌≤◌, ◌≡◌, ◌≢◌, ◌↔◌, refl, ap, ◌∙◌, subst, List, [], ◌∷◌, ◌++◌, true, false, ltb, length,
  ◌==◌, length-append, drop, last_n, map, Text, some, ok, text_eq→eq, text_eq_refl, arith,
}
use stock_master.Prelude.Order.{IsOrder, IsSorted, sorted, sorted-perm, length-sorted}
use stock_master.Prelude.Order.Distinct.{Apart, Distinct, Distinct-perm}
use stock_master.MarketData.Laws.{same_adjustment→eq, same_adjustment_refl}
use stock_master.MarketData.{DailyBar, PriceAdjustment}
use stock_master.Decimal.{of_ℕ, eqb_dec}
use stock_master.Decimal.Arithmetic.{sub, div, mul}
use stock_master.Thesis.{daily_price_change_percent}
use stock_master.Metric.{all_distinct, contains, make_metric_result}
use stock_master.Metric.Series.{
  one_series, same_bar_series, bar_before, prepare_daily_bars, percentage_change,
  require_observation_id,
}
use stock_master.Metric.Series.Laws.{
  sorted-eq, all_distinct_iff, Uniform, Uniform-perm, one_series_iff,
}
use stock_master.Metric.Calculate.{
  last_two, price_change, price_change_of_last, calculate_daily_price_change_percent, split_last,
  volume_ratio, volume_ratio_of_window, calculate_volume_ratio_20d,
}

abbrev pub bar_date : DailyBar → ℕ
bar_date b = b.trading_date

-- `(item.symbol, item.source, item.adjustment)`
abbrev pub bar_key : DailyBar → Text × Text × PriceAdjustment
bar_key b = (b.symbol, b.source, b.adjustment)

same_bar_series→eq : (a b : DailyBar) → same_bar_series a b ≡ true → bar_key a ≡ bar_key b
unfolding same_bar_series
same_bar_series→eq a b h = ground (
  arith,
  text_eq→eq a.symbol b.symbol,
  text_eq→eq a.source b.source,
  same_adjustment→eq a.adjustment b.adjustment,
)

same_bar_series_of_eq : (a b : DailyBar) → bar_key a ≡ bar_key b → same_bar_series a b ≡ true
unfolding same_bar_series
same_bar_series_of_eq a b h =
    let symbol : a.symbol ≡ b.symbol = ap (λ k. k.0) h in
    let source : a.source ≡ b.source = ap (λ k. k.1) h in
    let adjustment : a.adjustment ≡ b.adjustment = ap (λ k. k.2) h in
    simp (symbol, source, adjustment, text_eq_refl) (same_adjustment_refl b.adjustment)

pub bar_before-IsOrder : IsOrder bar_before
unfolding bar_before
bar_before-IsOrder = record { total = λ a b h. ground arith; le_trans = λ a b c h k. ground arith }

bar_before_strict :
    (a b : DailyBar) → Apart bar_date a b → bar_before a b ≡ true → bar_before b a ≡ false
unfolding bar_before
bar_before_strict a b h k = ground arith

-- Enough bars of one series, no two of one date.
pub record IsBarSeries (minimum : ℕ) (bars : List DailyBar) : Type 0 where
  pub enough : minimum ≤ length bars
  pub one_key : Uniform bar_key bars
  pub dates : Distinct bar_date bars

-- The same bars from the earliest to the latest.
pub record Chronological (bars listing : List DailyBar) : Type 0 where
  pub rearranged : Permᴰ bars listing
  pub ordered : IsSorted bar_before listing

module _ (minimum : ℕ) (pos : 1 ≤ minimum) (bars : List DailyBar) where
  prepare_accepts :
      IsBarSeries minimum bars → prepare_daily_bars minimum bars ≡ ok (sorted bar_before bars)
  unfolding prepare_daily_bars
  prepare_accepts s =
      let p = Permᴰ.symm (sorted-perm bar_before bars) in
      let nonempty : sorted bar_before bars ≢ [] =
        λ e. absurd (omega (arith, s.enough, length-sorted bar_before bars, ap length e)) in
      let one =
        (one_series_iff bar_key same_bar_series
            (λ a b. (same_bar_series→eq a b, same_bar_series_of_eq a b)) _).1
          (nonempty, Uniform-perm bar_key p s.one_key) in
      let apart = (all_distinct_iff bar_date _).1 (Distinct-perm bar_date p s.dates) in
      let enough : ltb (length bars) minimum ≡ false = ground (arith, s.enough) in
      rw (enough, one, apart)

  prepare_refuses :
      (listing : List DailyBar)
      → prepare_daily_bars minimum bars ≡ ok listing
      → IsBarSeries minimum bars
  unfolding prepare_daily_bars
  prepare_refuses listing h =
      let enough : ltb (length bars) minimum ≡ false = ground arith in
      let one_key : one_series same_bar_series (sorted bar_before bars) ≡ true = ground arith in
      let dates : all_distinct (map bar_date (sorted bar_before bars)) ≡ true = ground arith in
      let one =
        (one_series_iff bar_key same_bar_series
            (λ x y. (same_bar_series→eq x y, same_bar_series_of_eq x y)) (sorted bar_before bars)).0
          one_key in
      let apart = (all_distinct_iff bar_date (sorted bar_before bars)).0 dates in
      let p = sorted-perm bar_before bars in
      record {
        enough = ground arith;
        one_key = Uniform-perm bar_key p one.1;
        dates = Distinct-perm bar_date p apart;
      }

  -- Whatever the order of the bars: the preparation returns exactly when there are enough bars, they
  -- have one symbol, source and adjustment, and no two have one trading date; it then returns the
  -- bars from the earliest to the latest.
  pub prepare_daily_bars_exact :
      (listing : List DailyBar)
      → Chronological bars listing
      → (prepare_daily_bars minimum bars ≡ ok listing) ↔ IsBarSeries minimum bars
  prepare_daily_bars_exact listing c = (
    prepare_refuses listing,
    λ s.
        prepare_accepts s
        ∙ ap ok (
            sorted-eq bar_before bar_date bar_before-IsOrder bar_before_strict listing c.rearranged
              s.dates c.ordered),
  )

module _ {A : Type 0} where
  pub last_two-append : (older : List A) (x y : A) → last_two (older ++ x ∷ y ∷ []) ≡ some (x, y)
  unfolding last_two
  last_two-append [] x y = refl
  last_two-append (a ∷ []) x y = refl
  last_two-append (a ∷ b ∷ []) x y = refl
  last_two-append (a ∷ b ∷ c ∷ older) x y = last_two-append (b ∷ c ∷ older) x y

  split_last-append : (front : List A) (x : A) → split_last (front ++ x ∷ []) ≡ some (front, x)
  unfolding split_last
  split_last-append [] x = refl
  split_last-append (a ∷ []) x = refl
  split_last-append (a ∷ b ∷ front) x = rw (split_last-append (b ∷ front) x)

  drop-append : (older later : List A) → drop (length older) (older ++ later) ≡ later
  drop-append [] later = refl
  drop-append (x ∷ older) later = drop-append older later

  last_n-append : (older later : List A) → last_n (length later) (older ++ later) ≡ later
  last_n-append older later =
      let e : length (older ++ later) - length later ≡ length older =
        omega (arith, length-append older later) in
      rw e (drop-append older later)

price_change_ok :
    (previous current : DailyBar) (p c : ℕ)
    → previous.observation_id ≡ some p
    → current.observation_id ≡ some c
    → p ≢ c
    → eqb_dec previous.close (of_ℕ 0) ≡ false
    → price_change previous current
      ≡ ok (record {
        metric = daily_price_change_percent;
        value = mul (div (sub current.close previous.close) previous.close) (of_ℕ 100);
        data_as_of = current.trading_date;
        observation_ids = p ∷ c ∷ [];
        calculation_version = 1;
      })
unfolding price_change percentage_change require_observation_id make_metric_result all_distinct
    contains
price_change_ok previous current p c hp hc apart nonzero =
    let other : (p == c) ≡ false = ground (arith, apart) in rw (nonzero, hp, hc) (rw other refl)

-- Whatever the order of the bars of one series: the daily price change is computed from the latest
-- bar and the one before it. When both have an identifier, the two differ, and the earlier close is not
-- zero, it is the result with the difference of the closes over the earlier one times a hundred, with the
-- date of the latest bar, and with the identifiers of the earlier and the later bar.
pub calculate_daily_price_change_percent_lem :
    (bars older : List DailyBar) (previous current : DailyBar) (p c : ℕ)
    → IsBarSeries 2 bars
    → Chronological bars (older ++ previous ∷ current ∷ [])
    → previous.observation_id ≡ some p
    → current.observation_id ≡ some c
    → p ≢ c
    → eqb_dec previous.close (of_ℕ 0) ≡ false
    → calculate_daily_price_change_percent bars
      ≡ ok (record {
        metric = daily_price_change_percent;
        value = mul (div (sub current.close previous.close) previous.close) (of_ℕ 100);
        data_as_of = current.trading_date;
        observation_ids = p ∷ c ∷ [];
        calculation_version = 1;
      })
unfolding calculate_daily_price_change_percent price_change_of_last
calculate_daily_price_change_percent_lem bars older previous current p c s ch hp hc apart nonzero =
    rw
      (
        (prepare_daily_bars_exact 2 (omega arith) bars _ ch).1 s,
        last_two-append older previous current,
      )
      (price_change_ok previous current p c hp hc apart nonzero)

-- Whatever the order of the bars of one series: the volume ratio is computed from the latest bar and
-- exactly the twenty bars before it.
pub calculate_volume_ratio_20d_lem :
    (bars older history : List DailyBar) (current : DailyBar)
    → length history ≡ 20
    → IsBarSeries 21 bars
    → Chronological bars (older ++ (history ++ current ∷ []))
    → calculate_volume_ratio_20d bars ≡ volume_ratio history current
unfolding calculate_volume_ratio_20d volume_ratio_of_window
calculate_volume_ratio_20d_lem bars older history current twenty s c =
    let window : length (history ++ current ∷ []) ≡ 21 =
      omega (arith, length-append history (current ∷ [])) in
    let slice : last_n 21 (older ++ (history ++ current ∷ [])) ≡ history ++ current ∷ [] =
      subst (λ n. last_n n (older ++ (history ++ current ∷ [])) ≡ history ++ current ∷ []) window
        (last_n-append older (history ++ current ∷ [])) in
    rw (
      (prepare_daily_bars_exact 21 (omega arith) bars _ c).1 s,
      slice,
      split_last-append history current,
    )
