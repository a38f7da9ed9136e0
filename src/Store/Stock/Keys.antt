-- ===== src/Store/Stock/Keys.antt =====
-- The unique keys of app/database/tables.py, which the upserts of app/database/repositories.py keep.
use stock_master.Prelude.{
  ℕ, ◌≡◌, ◌↔◌, refl, ap, Text, List, [], ◌∷◌, true, Option, none, some, cardinality_violation,
  arith, text_eq→eq, text_eq_refl,
}
use stock_master.Prelude.Upsert.{Unique, IsKeyTest, IsKeyTest-of_iff, upsert-Unique}
use stock_master.Prelude.Exec.{bind-After, raise_when, lift}
use stock_master.MarketData.{DailyBar, PriceAdjustment, CompanyFundamentals}
use stock_master.MarketData.Laws.{same_adjustment→eq, same_adjustment_refl}
use stock_master.Store.{Session, uuid4}
use stock_master.Store.Stock.Rows.{
  same_bar, same_date, same_snapshot, stored_bars, stored_snapshot, some_twice,
}
use stock_master.Store.Stock.{
  merge_bar, upsert_bars, number_bars, put_bars, insert_bars, save_daily_bars, merge_snapshot,
  save_company_fundamentals, effective_snapshot_date,
}

-- the columns of `daily_bar_identity`
abbrev pub identity_of : DailyBar → Text × ℕ × Text × PriceAdjustment
identity_of b = (b.symbol, b.trading_date, b.source, b.adjustment)

pub same_bar_of_eq :
    (a b : DailyBar)
    → a.symbol ≡ b.symbol
    → a.trading_date ≡ b.trading_date
    → a.source ≡ b.source
    → a.adjustment ≡ b.adjustment
    → same_bar a b ≡ true
unfolding same_bar
same_bar_of_eq a b symbol date source adjustment = ground (
  arith,
  symbol,
  date,
  source,
  adjustment,
  text_eq_refl b.symbol,
  text_eq_refl b.source,
  same_adjustment_refl b.adjustment,
)

same_bar_iff : (a b : DailyBar) → (same_bar a b ≡ true) ↔ (identity_of a ≡ identity_of b)
unfolding same_bar
same_bar_iff a b = (
  λ h. ground (
    arith,
    text_eq→eq a.symbol b.symbol,
    text_eq→eq a.source b.source,
    same_adjustment→eq a.adjustment b.adjustment,
  ),
  λ h. same_bar_of_eq a b (ap (λ k. k.0) h) (ap (λ k. k.1) h) (ap (λ k. k.2) h) (ap (λ k. k.3) h),
)

pub same_bar-IsKeyTest : IsKeyTest same_bar
same_bar-IsKeyTest = IsKeyTest-of_iff identity_of same_bar same_bar_iff

-- the columns of `fundamental_snapshot_identity`
abbrev snapshot_identity : CompanyFundamentals → Text × Option ℕ × Text
snapshot_identity f = (f.symbol, f.snapshot_date, f.source)

same_date_iff : (a b : Option ℕ) → (same_date a b ≡ true) ↔ (a ≡ b)
unfolding same_date
same_date_iff none none = (λ h. refl, λ h. refl)
same_date_iff none (some b) = (λ h. ground arith, λ h. ground arith)
same_date_iff (some a) none = (λ h. ground arith, λ h. ground arith)
same_date_iff (some a) (some b) = (λ h. ground arith, λ h. ground arith)

same_snapshot_iff :
    (a b : CompanyFundamentals)
    → (same_snapshot a b ≡ true) ↔ (snapshot_identity a ≡ snapshot_identity b)
unfolding same_snapshot
same_snapshot_iff a b = (
  λ h. ground (
    arith,
    text_eq→eq a.symbol b.symbol,
    text_eq→eq a.source b.source,
    (same_date_iff a.snapshot_date b.snapshot_date).0,
  ),
  λ h.
      let symbol : a.symbol ≡ b.symbol = ap (λ k. k.0) h in
      let date : a.snapshot_date ≡ b.snapshot_date = ap (λ k. k.1) h in
      let source : a.source ≡ b.source = ap (λ k. k.2) h in
      ground (
        arith,
        symbol,
        source,
        text_eq_refl b.symbol,
        text_eq_refl b.source,
        (same_date_iff a.snapshot_date b.snapshot_date).1 date,
      ),
)

same_snapshot-IsKeyTest : IsKeyTest same_snapshot
same_snapshot-IsKeyTest = IsKeyTest-of_iff snapshot_identity same_snapshot same_snapshot_iff

pub merge_bar-key : (old new : DailyBar) → same_bar (merge_bar old new) new ≡ true
unfolding merge_bar
merge_bar-key old new = (same_bar_iff _ new).1 refl

merge_snapshot-key :
    (old new : CompanyFundamentals) → same_snapshot (merge_snapshot old new) new ≡ true
unfolding merge_snapshot
merge_snapshot-key old new = (same_snapshot_iff _ new).1 refl

upsert_bars-Unique :
    (bars rows : List DailyBar) → Unique same_bar rows → Unique same_bar (upsert_bars bars rows)
unfolding upsert_bars
upsert_bars-Unique [] rows u = u
upsert_bars-Unique (bar ∷ bars) rows u =
    upsert_bars-Unique bars _ (upsert-Unique same_bar-IsKeyTest merge_bar merge_bar-key bar rows u)

abbrev KeepsBars : Session → Type 0
KeepsBars s = Unique same_bar s.daily_bars

insert_bars-Unique :
    (bars : List DailyBar) (s : Session) → KeepsBars s → KeepsBars (insert_bars bars s).1
unfolding insert_bars put_bars
insert_bars-Unique bars s u = bind-After KeepsBars (lift (stored_bars s.world bars)) _ s u λ rows _.
    bind-After KeepsBars (raise_when (some_twice rows) cardinality_violation) _ s u
      λ _ _. upsert_bars-Unique (number_bars s.world.uuid s.uuids_drawn rows) s.daily_bars u

-- Saving bars, whether it returns or raises, keeps the table free of two rows of one symbol, date,
-- source and adjustment.
pub save_daily_bars-Unique :
    (bars : List DailyBar) (s : Session)
    → Unique same_bar s.daily_bars
    → Unique same_bar (save_daily_bars bars s).1.daily_bars
unfolding save_daily_bars
save_daily_bars-Unique [] s u = u
save_daily_bars-Unique (bar ∷ bars) s u = insert_bars-Unique (bar ∷ bars) s u

abbrev KeepsSnapshots : Session → Type 0
KeepsSnapshots s = Unique same_snapshot s.fundamentals

-- Saving a snapshot, whether it returns or raises, keeps the table free of two rows of one symbol,
-- date and source.
pub save_company_fundamentals-Unique :
    (f : CompanyFundamentals) (date : Option ℕ) (s : Session)
    → Unique same_snapshot s.fundamentals
    → Unique same_snapshot (save_company_fundamentals f date s).1.fundamentals
unfolding save_company_fundamentals uuid4
save_company_fundamentals-Unique f date s u =
    bind-After KeepsSnapshots (lift (stored_snapshot s.world f (effective_snapshot_date f date))) _
      s u
      λ row _.
        upsert-Unique same_snapshot-IsKeyTest merge_snapshot merge_snapshot-key _ s.fundamentals u
