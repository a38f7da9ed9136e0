-- ===== src/Store/Listing/Tests.antt =====
-- The theorem on the pages of app/database/thesis_repositories.py, at two theses on pages of one.
use mathlib.Core.List.{Permᴰ}
use stock_master.Prelude.{◌≡◌, refl, arith, [], ◌∷◌, none, ok}
use stock_master.Prelude.Order.{sorted, insert_sorted}
use stock_master.Prelude.Reading.{read_all}
use stock_master.Text.{is_space, strip, is_symbol, normalize_symbol}
use stock_master.Thesis.{InvestmentThesis, make_thesis, thesis_fits}
use stock_master.Store.{Session}
use stock_master.Store.Theses.Timeline.{empty_session}
use stock_master.Store.Listing.{
  list_theses, validate_pagination, filter_symbol, when_given, is_wanted, latest_thesis_first, page,
}
use stock_master.Store.Listing.Pages.{list_theses-adjoin}
use stock_master.Samples.{a_world, aapl}

-- two theses that were updated at one instant
abbrev newer : InvestmentThesis
newer = record aapl { id = 5 }

abbrev start : Session
start = record (empty_session a_world 0 0) { theses = aapl ∷ newer ∷ [] }

-- the same rows in the other order
abbrev turned : Session
turned = record start { theses = newer ∷ aapl ∷ [] }

first : list_theses 7 none none 1 0 start ≡ (ok (newer ∷ []), start)
unfolding list_theses validate_pagination filter_symbol when_given is_wanted latest_thesis_first
    page sorted insert_sorted read_all make_thesis thesis_fits is_symbol normalize_symbol is_space
    strip
first = refl

second : list_theses 7 none none 1 1 turned ≡ (ok (aapl ∷ []), turned)
unfolding list_theses validate_pagination filter_symbol when_given is_wanted latest_thesis_first
    page sorted insert_sorted read_all make_thesis thesis_fits is_symbol normalize_symbol is_space
    strip
second = refl

list_theses-adjoin_example : list_theses 7 none none 2 0 start ≡ (ok (newer ∷ aapl ∷ []), start)
list_theses-adjoin_example =
    list_theses-adjoin 7 none none 1 1 0 start turned start turned (newer ∷ []) (aapl ∷ [])
      (omega arith) ((λ e. absurd (omega (arith, e)), tt), (tt, tt)) (Permᴰ.swap refl refl) first
      second
