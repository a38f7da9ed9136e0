-- ===== src/Metric/Snapshots.antt =====
-- The preparation of the snapshots in app/domain/metric_calculator.py: one series, in the order of the dates.
use mathlib.Core.List.{Permᴰ}
use mathlib.Core.List.Permᴰ
use stock_master.Prelude.{
  ◌≡◌, ◌≢◌, refl, ap, ◌∙◌, sym, List, [], ◌∷◌, true, false, Text, ok, text_eq→eq, text_eq_refl,
  arith, length, length-zero,
}
use stock_master.Prelude.Order.{IsOrder, IsSorted, sorted, sorted-perm, length-sorted}
use stock_master.Prelude.Order.Distinct.{Apart, Distinct, Distinct-perm}
use stock_master.Event.{is_empty}
use stock_master.MarketData.{CompanyFundamentals}
use stock_master.Metric.Series.{
  same_snapshot_series, snapshot_before, fundamental_data_as_of, prepare_fundamentals,
}
use stock_master.Metric.Series.Laws.{
  sorted-eq, all_distinct_iff, Uniform, Uniform-perm, one_series_iff,
}

-- `(item.symbol, item.source)`
abbrev pub snapshot_key : CompanyFundamentals → Text × Text
snapshot_key s = (s.symbol, s.source)

same_snapshot_series→eq :
    (a b : CompanyFundamentals) → same_snapshot_series a b ≡ true → snapshot_key a ≡ snapshot_key b
unfolding same_snapshot_series
same_snapshot_series→eq a b h =
    ground (arith, text_eq→eq a.symbol b.symbol, text_eq→eq a.source b.source)

same_snapshot_series_of_eq :
    (a b : CompanyFundamentals) → snapshot_key a ≡ snapshot_key b → same_snapshot_series a b ≡ true
unfolding same_snapshot_series
same_snapshot_series_of_eq a b h =
    let symbol : a.symbol ≡ b.symbol = ap (λ k. k.0) h in
    let source : a.source ≡ b.source = ap (λ k. k.1) h in simp (symbol, source, text_eq_refl)

pub snapshot_before-IsOrder : IsOrder snapshot_before
unfolding snapshot_before
snapshot_before-IsOrder = record {
  total = λ a b h. ground arith;
  le_trans = λ a b c h k. ground arith;
}

snapshot_before_strict :
    (a b : CompanyFundamentals)
    → Apart fundamental_data_as_of a b
    → snapshot_before a b ≡ true
    → snapshot_before b a ≡ false
unfolding snapshot_before
snapshot_before_strict a b h k = ground arith

-- Snapshots of one series, no two of one date.
pub record IsSnapshotSeries (snapshots : List CompanyFundamentals) : Type 0 where
  pub present : snapshots ≢ []
  pub one_key : Uniform snapshot_key snapshots
  pub dates : Distinct fundamental_data_as_of snapshots

-- The same snapshots from the earliest to the latest.
pub record Chronicle (snapshots listing : List CompanyFundamentals) : Type 0 where
  pub rearranged : Permᴰ snapshots listing
  pub ordered : IsSorted snapshot_before listing

is_empty_of_ne : {A : Type 0} (xs : List A) → xs ≢ [] → is_empty xs ≡ false
is_empty_of_ne [] h = absurd (h refl)
is_empty_of_ne (x ∷ xs) h = refl

module _ (snapshots : List CompanyFundamentals) (s : IsSnapshotSeries snapshots) where
  prepare_accepts : prepare_fundamentals snapshots ≡ ok (sorted snapshot_before snapshots)
  unfolding prepare_fundamentals
  prepare_accepts =
      let p = Permᴰ.symm (sorted-perm snapshot_before snapshots) in
      let nonempty : sorted snapshot_before snapshots ≢ [] = λ e.
        s.present
          (length-zero snapshots (sym (length-sorted snapshot_before snapshots) ∙ ap length e)) in
      let one =
        (one_series_iff snapshot_key same_snapshot_series
            (λ a b. (same_snapshot_series→eq a b, same_snapshot_series_of_eq a b)) _).1
          (nonempty, Uniform-perm snapshot_key p s.one_key) in
      let apart =
        (all_distinct_iff fundamental_data_as_of _).1
          (Distinct-perm fundamental_data_as_of p s.dates) in
      rw (is_empty_of_ne snapshots s.present, one, apart)

  pub prepare_fundamentals-eq :
      (listing : List CompanyFundamentals)
      → Chronicle snapshots listing
      → prepare_fundamentals snapshots ≡ ok listing
  prepare_fundamentals-eq listing c =
      prepare_accepts
      ∙ ap ok (
          sorted-eq snapshot_before fundamental_data_as_of snapshot_before-IsOrder
            snapshot_before_strict listing c.rearranged s.dates c.ordered)
