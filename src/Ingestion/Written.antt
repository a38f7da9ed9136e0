-- ===== src/Ingestion/Written.antt =====
-- app/services/ingestion_runner.py: the row of an item, when its constraints hold, and what the attempts
-- for a symbol write.
use stock_master.Prelude.{
  ℕ, ◌≤◌, ◌≡◌, refl, sym, ap, ◌∙◌, subst, Text, List, [], ◌∷◌, ◌++◌, true, false, some, Result, ok,
  arith, length, value_error,
}
use stock_master.Prelude.Exec.{bind-eq-ok, raise_when}
use stock_master.Text.{strip, upper}
use stock_master.Event.{is_empty}
use stock_master.MarketData.{DailyBar, CompanyFundamentals}
use stock_master.Store.{Session}
use stock_master.Store.Stock.{save_daily_bars, save_company_fundamentals}
use stock_master.Ingestion.Refresh.{
  IngestionResult, Answer, validate_symbols, refresh_bars, refresh_symbol,
}
use stock_master.Ingestion.Outcomes.{SymbolIngestionOutcome, IngestionRunItem, success_of}
use stock_master.Ingestion.Items.{
  RunState, has_run, has_item, item_fits, drew_item, item_of, insert_item, save_item,
}
use stock_master.Ingestion.{Attempted, refreshed, exhausted}

-- The row of an outcome: of this run, and with all that the outcome says.
pub record IsItemOf (run_id : ℕ) (o : SymbolIngestionOutcome) (row : IngestionRunItem)
    : Type 0 where
  pub run_of : row.run_id ≡ run_id
  pub says : row.outcome ≡ o

-- The constraints on an item of a run admit one for the symbol.
pub record Room (run_id : ℕ) (symbol : Text) (s : RunState) : Type 0 where
  pub short : length symbol ≤ 15
  pub fresh : has_item run_id symbol s.items ≡ false
  pub present : has_run run_id s.runs ≡ true

-- One more row, for the outcome.
pub record Adds (run_id : ℕ) (o : SymbolIngestionOutcome) (s z : RunState) : Type 0 where
  pub row : IngestionRunItem
  pub items : z.items ≡ s.items ++ row ∷ []
  pub item : IsItemOf run_id o row
  pub runs : z.runs ≡ s.runs

-- What the attempts for a symbol write: the item of a success, or nothing.
unfoldable pub Wrote : ℕ → Text → RunState → Attempted × RunState → Type 0
Wrote run_id symbol s (refreshed result, z) = Adds run_id (success_of symbol result) s z
Wrote run_id symbol s (exhausted last, z) = (z.items ≡ s.items) × (z.runs ≡ s.runs)

-- What saving an item does, when there is room for it.
abbrev pub Saves : ℕ → SymbolIngestionOutcome → RunState → Result (Unit {0}) × RunState → Type 0
Saves run_id o s p = (p.0 ≡ ok tt) × Adds run_id o s p.1

pub save_item-Adds :
    (run_id : ℕ) (o : SymbolIngestionOutcome) (s : RunState)
    → Room run_id o.symbol s
    → Saves run_id o s (save_item run_id o s)
unfolding save_item item_fits insert_item drew_item item_of
save_item-Adds run_id o s room =
    let fits : item_fits run_id o.symbol s.runs s.items ≡ ok tt =
      ground (arith, room.short, room.fresh, room.present) in
    subst (λ r. Saves run_id o s (insert_item (item_of run_id o s.session) r (drew_item s)))
      (sym fits)
      (
        refl,
        record { row = _; items = refl; item = record { run_of = refl; says = refl }; runs = refl },
      )

pub Room-from :
    (run_id : ℕ) (symbol : Text) (s z : RunState)
    → z.items ≡ s.items
    → z.runs ≡ s.runs
    → Room run_id symbol s
    → Room run_id symbol z
Room-from run_id symbol s z items runs room = record {
  short = room.short;
  fresh = ap (λ rows. has_item run_id symbol rows) items ∙ room.fresh;
  present = ap (λ rows. has_run run_id rows) runs ∙ room.present;
}

pub Adds-from :
    (run_id : ℕ) (o : SymbolIngestionOutcome) (s w z : RunState)
    → w.items ≡ s.items
    → w.runs ≡ s.runs
    → Adds run_id o w z
    → Adds run_id o s z
Adds-from run_id o s w z items runs a = record {
  row = a.row;
  items = a.items ∙ ap (λ xs. xs ++ a.row ∷ []) items;
  item = a.item;
  runs = a.runs ∙ runs;
}

pub Wrote-from :
    (run_id : ℕ) (symbol : Text) (s w : RunState) (p : Attempted × RunState)
    → w.items ≡ s.items
    → w.runs ≡ s.runs
    → Wrote run_id symbol w p
    → Wrote run_id symbol s p
unfolding Wrote
Wrote-from run_id symbol s w (refreshed result, z) items runs h =
    Adds-from run_id (success_of symbol result) s w z items runs h
Wrote-from run_id symbol s w (exhausted last, z) items runs h = (h.0 ∙ items, h.1 ∙ runs)

refresh_bars-symbol :
    (answer : Result CompanyFundamentals) (symbol : Text) (bars : List DailyBar) (s z : Session)
    (result : IngestionResult)
    → refresh_bars answer symbol bars s ≡ (ok result, z)
    → result.symbol ≡ symbol
unfolding refresh_bars
refresh_bars-symbol answer symbol [] s z result h = absurd (ground (arith, h))
refresh_bars-symbol answer symbol (bar ∷ bars) s z result h =
    let (f, _, k1) = bind-eq-ok (λ (t : Session). (answer, t)) _ s h in
    let (_, _, k2) =
      bind-eq-ok (λ (t : Session). (validate_symbols symbol bar.symbol f.symbol, t)) _ s k1 in
    let (n, _, k3) = bind-eq-ok (save_daily_bars (bar ∷ bars)) _ s k2 in
    let (_, _, k4) =
      bind-eq-ok (save_company_fundamentals f (some f.received_at.date)) _
        (save_daily_bars (bar ∷ bars) s).1 k3 in
    ground (arith, k4)

-- The symbol of a refresh is the one that was asked for, normalised.
pub refresh_symbol-symbol :
    (answer : Answer) (symbol : Text) (s z : Session) (result : IngestionResult)
    → refresh_symbol answer symbol s ≡ (ok result, z)
    → result.symbol ≡ upper (strip symbol)
unfolding refresh_symbol
refresh_symbol-symbol answer symbol s z result h =
    let (_, _, k1) = bind-eq-ok (raise_when (is_empty (upper (strip symbol))) value_error) _ s h in
    let (bars, _, k2) = bind-eq-ok (λ (t : Session). (answer.bars, t)) _ s k1 in
    refresh_bars-symbol answer.fundamentals (upper (strip symbol)) bars s z result k2
