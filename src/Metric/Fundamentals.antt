-- ===== src/Metric/Fundamentals.antt =====
-- The fundamental calculators of app/domain/metric_calculator.py over a chronological listing.
use mathlib.Core.List.{reverse, reverse-append}
use mathlib.Core.List.Permᴰ
use stock_master.Prelude.{
  ◌≡◌, ◌≢◌, refl, ap, ◌∙◌, sym, List, [], ◌∷◌, ◌++◌, append_assoc, append-nil, All, Option, none,
  some, ok, err, metric_calculation, arith, ◌↔◌, ℕ, Option-cases, inl, inr, Error,
}
use stock_master.Prelude.Order.Distinct.{All-perm}
use stock_master.Decimal.{Decimal}
use stock_master.Thesis.{MetricCode}
use stock_master.Metric.{make_metric_result, all_distinct, contains}
use stock_master.MarketData.{CompanyFundamentals}
use stock_master.Metric.Series.{fundamental_data_as_of, require_observation_id}
use stock_master.Metric.Bars.{last_two-append}
use stock_master.Metric.Calculate.{
  current_value, first_available, calculate_current_fundamental, available, value_change,
  value_change_of_last, calculate_fundamental_change,
}
use stock_master.Metric.Snapshots.{IsSnapshotSeries, Chronicle, prepare_fundamentals-eq}

-- The snapshot has an identifier.
abbrev pub HasId : CompanyFundamentals → Type 0
HasId s = (id : ℕ) × (s.observation_id ≡ some id)

ok≢err : {A : Type 0} {a : A} {e : Error} → ok a ≢ err e
ok≢err h = absurd (ground (arith, h))

module _ (metric : MetricCode) (selector : CompanyFundamentals → Option Decimal) where
  -- None of the snapshots has the value.
  abbrev pub Lacks : List CompanyFundamentals → Type 0
  Lacks = All (λ s. selector s ≡ none)

  first_available-append :
      (xs ys : List CompanyFundamentals)
      → Lacks xs
      → first_available metric selector (xs ++ ys) ≡ first_available metric selector ys
  unfolding first_available
  first_available-append [] ys h = refl
  first_available-append (x ∷ xs) ys h = rw h.0 (first_available-append xs ys h.1)

  Lacks-reverse : (xs : List CompanyFundamentals) → Lacks xs → Lacks (reverse xs)
  Lacks-reverse xs h = All-perm (λ s. selector s ≡ none) (Permᴰ.symm (Permᴰ.reverse xs)) h

  first_available-cons :
      (s : CompanyFundamentals) (value : Decimal) (rest : List CompanyFundamentals)
      → selector s ≡ some value
      → first_available metric selector (s ∷ rest) ≡ current_value metric selector s value
  unfolding first_available
  first_available-cons s value rest h = rw (h, first_available)

  current_value_ok :
      (s : CompanyFundamentals) (value : Decimal) (id : ℕ)
      → s.observation_id ≡ some id
      → current_value metric selector s value
        ≡ ok (record {
          metric = metric;
          value = value;
          data_as_of = elim s.snapshot_date [ none ↦ s.received_at.date | some d ↦ d ];
          observation_ids = id ∷ [];
          calculation_version = 1;
        })
  unfolding current_value require_observation_id make_metric_result all_distinct contains
      fundamental_data_as_of
  current_value_ok s value id named = rw named refl

  reverse-middle :
      (older newer : List CompanyFundamentals) (s : CompanyFundamentals)
      → reverse (older ++ s ∷ newer) ≡ reverse newer ++ (s ∷ reverse older)
  reverse-middle older newer s =
      reverse-append older (s ∷ newer)
      ∙ rw (reverse-append (s ∷ []) newer) (append_assoc (reverse newer) (s ∷ []) (reverse older))

  -- Whatever the order of the snapshots of one series: the current value is that of the latest
  -- snapshot that has one; later snapshots without the value are passed over. When that snapshot has an
  -- identifier, the result carries the value, the snapshot's own date or else the date of its receipt, and
  -- the one identifier.
  pub calculate_current_fundamental_lem :
      (snapshots older newer : List CompanyFundamentals) (s : CompanyFundamentals) (value : Decimal)
      (id : ℕ)
      → IsSnapshotSeries snapshots
      → Chronicle snapshots (older ++ s ∷ newer)
      → selector s ≡ some value
      → Lacks newer
      → s.observation_id ≡ some id
      → calculate_current_fundamental metric selector snapshots
        ≡ ok (record {
          metric = metric;
          value = value;
          data_as_of = elim s.snapshot_date [ none ↦ s.received_at.date | some d ↦ d ];
          observation_ids = id ∷ [];
          calculation_version = 1;
        })
  unfolding calculate_current_fundamental
  calculate_current_fundamental_lem snapshots older newer s value id series c has lacks named =
      rw (prepare_fundamentals-eq snapshots series _ c, reverse-middle older newer s)
        (first_available-append (reverse newer) (s ∷ reverse older) (Lacks-reverse newer lacks)
          ∙ first_available-cons s value (reverse older) has
          ∙ current_value_ok s value id named)

  first_available_fails :
      (xs : List CompanyFundamentals)
      → All HasId xs
      → first_available metric selector xs ≡ err metric_calculation
      → Lacks xs
  unfolding first_available
  first_available_fails [] ids h = tt
  first_available_fails (x ∷ xs) ids h = elim (Option-cases (selector x)) [
    | inl e ↦
        (e, first_available_fails xs ids.1 (sym (first_available-append (x ∷ []) xs (e, tt)) ∙ h))
    | inr (value, e) ↦ absurd (
        ok≢err (
          sym (current_value_ok x value ids.0.0 ids.0.1)
          ∙ sym (first_available-cons x value xs e)
          ∙ h))
  ]

  -- Whatever the order of the snapshots of one series, no two of one date, each with an identifier: the
  -- current value raises `MetricCalculationError` exactly when none of the snapshots has the value.
  pub calculate_current_fundamental_unavailable :
      (snapshots listing : List CompanyFundamentals)
      → IsSnapshotSeries snapshots
      → Chronicle snapshots listing
      → All HasId listing
      → (calculate_current_fundamental metric selector snapshots ≡ err metric_calculation)
        ↔ Lacks listing
  unfolding calculate_current_fundamental
  calculate_current_fundamental_unavailable snapshots listing series c ids = (
    λ raised.
        let read : first_available metric selector (reverse listing) ≡ err metric_calculation =
          rw (← raised, prepare_fundamentals-eq snapshots series _ c) refl in
        All-perm (λ s. selector s ≡ none) (Permᴰ.reverse listing)
          (first_available_fails (reverse listing)
            (All-perm HasId (Permᴰ.symm (Permᴰ.reverse listing)) ids) read),
    λ lacks. rw (prepare_fundamentals-eq snapshots series _ c) (
        ap (first_available metric selector) (sym (append-nil (reverse listing)))
        ∙ first_available-append (reverse listing) [] (Lacks-reverse listing lacks)
        ∙ (unfold first_available in refl)),
  )

  available-append :
      (xs ys : List CompanyFundamentals)
      → available metric selector (xs ++ ys)
        ≡ available metric selector xs ++ available metric selector ys
  unfolding available
  available-append [] ys = refl
  available-append (x ∷ xs) ys = ground (arith, available-append xs ys)

  available-Lacks :
      (xs ys : List CompanyFundamentals)
      → Lacks xs
      → available metric selector (xs ++ ys) ≡ available metric selector ys
  unfolding available
  available-Lacks [] ys h = refl
  available-Lacks (x ∷ xs) ys h = rw h.0 (available-Lacks xs ys h.1)

  available-cons :
      (s : CompanyFundamentals) (value : Decimal) (rest : List CompanyFundamentals)
      → selector s ≡ some value
      → available metric selector (s ∷ rest) ≡ (s, value) ∷ available metric selector rest
  unfolding available
  available-cons s value rest h = rw (h, available)

  -- Whatever the order of the snapshots of one series: the change is computed from the latest two
  -- snapshots that have the value, and snapshots without it, between them or after, are passed over.
  pub calculate_fundamental_change_lem :
      (snapshots older between newer : List CompanyFundamentals) (p c : CompanyFundamentals)
      (before after : Decimal)
      → IsSnapshotSeries snapshots
      → Chronicle snapshots (older ++ (p ∷ (between ++ (c ∷ newer))))
      → selector p ≡ some before
      → selector c ≡ some after
      → Lacks between
      → Lacks newer
      → calculate_fundamental_change metric selector snapshots
        ≡ value_change metric selector (p, before) (c, after)
  unfolding calculate_fundamental_change value_change_of_last
  calculate_fundamental_change_lem snapshots older between newer p c before after series ch hp hc lb
        ln =
      let none_after : available metric selector newer ≡ [] =
        ap (available metric selector) (sym (append-nil newer))
        ∙ available-Lacks newer [] ln
        ∙ (unfold available in refl) in
      let tail : available metric selector (p ∷ (between ++ (c ∷ newer)))
          ≡ (p, before) ∷ (c, after) ∷ [] =
        available-cons p before (between ++ (c ∷ newer)) hp
        ∙ ap (λ zs. (p, before) ∷ zs)
            (available-Lacks between (c ∷ newer) lb
              ∙ available-cons c after newer hc
              ∙ ap (λ zs. (c, after) ∷ zs) none_after) in
      rw (
        prepare_fundamentals-eq snapshots series _ ch,
        available-append older (p ∷ (between ++ (c ∷ newer))),
        tail,
        last_two-append (available metric selector older) (p, before) (c, after),
      )
