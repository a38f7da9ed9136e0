-- ===== src/Ingestion/Recorded.antt =====
-- app/services/ingestion_runner.py: a batch in the database, with the outcome and the row of each symbol.
use stock_master.Prelude.{
  ℕ, ◌≤◌, ◌≡◌, refl, sym, ap, ap₂, ◌∙◌, subst, Text, List, [], ◌∷◌, ◌++◌, map, append_assoc,
  append-nil, true, false, Result, ok, arith, length, Each, each_nil, each_cons, All, text_eq,
}
use stock_master.Text.{is_symbol, length_within, normalize_symbol}
use stock_master.Text.Laws.{normalize_symbol_of_symbol}
use stock_master.Ingestion.Outcomes.{SymbolIngestionOutcome, IngestionRunItem}
use stock_master.Ingestion.Items.{RunState, has_run, has_item}
use stock_master.Ingestion.Written.{IsItemOf, Room}
use stock_master.Ingestion.Yields.{run_one-Yields}
use stock_master.Ingestion.{Settings, run_one, run_symbols}

-- The outcomes of a batch, and the rows that it adds.
pub record IsRecorded (run_id : ℕ) (symbols : List Text) (s : RunState)
    (p : Result (List SymbolIngestionOutcome) × RunState) : Type 0 where
  pub outcomes : List SymbolIngestionOutcome
  pub done : p.0 ≡ ok outcomes
  pub named : map (λ o. o.symbol) outcomes ≡ symbols
  pub rows : List IngestionRunItem
  pub items : p.1.items ≡ s.items ++ rows
  pub each : Each (IsItemOf run_id) outcomes rows

-- The run has no item for the symbol.
abbrev pub IsFresh : ℕ → List IngestionRunItem → Text → Type 0
IsFresh run_id items symbol = has_item run_id symbol items ≡ false

-- No two of the symbols are one.
abbrev pub Unequal : List Text → Type 0
Unequal [] = Unit
Unequal (x ∷ xs) = All (λ y. text_eq x y ≡ false) xs × Unequal xs

has_item-append :
    (run_id : ℕ) (symbol : Text) (items : List IngestionRunItem) (row : IngestionRunItem)
    → has_item run_id symbol items ≡ false
    → text_eq row.outcome.symbol symbol ≡ false
    → has_item run_id symbol (items ++ row ∷ []) ≡ false
unfolding has_item
has_item-append run_id symbol [] row h k = ground (arith, k)
has_item-append run_id symbol (i ∷ items) row h k =
    ground (arith, h, has_item-append run_id symbol items row (ground (arith, h)) k)

IsFresh-after :
    (run_id : ℕ) (items : List IngestionRunItem) (row : IngestionRunItem) (symbols : List Text)
    → All (IsFresh run_id items) symbols
    → All (λ y. text_eq row.outcome.symbol y ≡ false) symbols
    → All (IsFresh run_id (items ++ row ∷ [])) symbols
IsFresh-after run_id items row [] h k = tt
IsFresh-after run_id items row (y ∷ ys) h k =
    (has_item-append run_id y items row h.0 k.0, IsFresh-after run_id items row ys h.1 k.1)

is_symbol-short : (s : Text) → is_symbol s ≡ true → length s ≤ 15
unfolding is_symbol length_within
is_symbol-short [] h = omega arith
is_symbol-short (c ∷ s) h = ground (arith, h)

-- Whatever the data source answers: when the run has its row and no items for the symbols, and the symbols
-- are different and match the pattern of a symbol, then the batch returns. It has one outcome for each
-- symbol, in their order, and adds to the items of the runs exactly one row for each outcome, in that
-- order, of this run and with all that the outcome says, also for symbols that were skipped.
pub run_symbols-IsRecorded :
    (st : Settings) (run_id : ℕ) (symbols : List Text) (s : RunState)
    → has_run run_id s.runs ≡ true
    → All (λ x. is_symbol x ≡ true) symbols
    → Unequal symbols
    → All (IsFresh run_id s.items) symbols
    → IsRecorded run_id symbols s (run_symbols st run_id symbols s)
unfolding run_symbols normalize_symbol
run_symbols-IsRecorded st run_id [] s present clean apart fresh = record {
  outcomes = [];
  done = refl;
  named = refl;
  rows = [];
  items = sym (append-nil s.items);
  each = each_nil;
}
run_symbols-IsRecorded st run_id (symbol ∷ symbols) s present clean apart fresh =
    let room : Room run_id symbol s = record {
      short = is_symbol-short symbol clean.0;
      fresh = fresh.0;
      present = present;
    } in
    let normal = normalize_symbol_of_symbol symbol clean.0 in
    let y = run_one-Yields st run_id symbol s normal room in
    let z = (run_one st run_id symbol s).1 in
    let called : y.added.row.outcome.symbol ≡ symbol =
      ap (λ o. o.symbol) y.added.item.says ∙ y.named in
    let others = subst (λ x. All (λ w. text_eq x w ≡ false) symbols) (sym called) apart.0 in
    let still =
      subst (λ items. All (IsFresh run_id items) symbols) (sym y.added.items)
        (IsFresh-after run_id s.items y.added.row symbols fresh.1 others) in
    let rest =
      run_symbols-IsRecorded st run_id symbols z
        (ap (λ rows. has_run run_id rows) y.added.runs ∙ present) clean.1 apart.1 still in
    rw (y.done, rest.done)
      (record {
        outcomes = y.outcome ∷ rest.outcomes;
        done = refl;
        named = ap₂ (λ x xs. x ∷ xs) y.named rest.named;
        rows = y.added.row ∷ rest.rows;
        items =
            rest.items
            ∙ ap (λ xs. xs ++ rest.rows) y.added.items
            ∙ append_assoc s.items (y.added.row ∷ []) rest.rows;
        each = each_cons y.added.item rest.each;
      })
