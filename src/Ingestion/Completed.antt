-- ===== src/Ingestion/Completed.antt =====
-- app/services/ingestion_runner.py: a run that can begin returns, and its items are in the database.
use stock_master.Prelude.{
  ℕ, ◌==◌, ◌≤◌, ◌≡◌, ◌≢◌, refl, sym, subst, Text, List, [], ◌∷◌, ◌++◌, append-nil, length, true,
  false, Result, ok, arith, Each, each_nil, All, codes, ◌⊎◌,
}
use stock_master.Ingestion.Outcomes.{
  IngestionRunOutcome, IngestionRun, IngestionRunItem, normalize_symbols,
}
use stock_master.Ingestion.Items.{RunState, has_run, has_item}
use stock_master.Ingestion.Written.{IsItemOf}
use stock_master.Ingestion.Recorded.{IsFresh, IsRecorded, run_symbols-IsRecorded}
use stock_master.Ingestion.Sorted.{normalize_symbols-Ascending}
use stock_master.Ingestion.SymbolSet.{Ascending-Unequal, normalize_symbols-AllSymbols}
use stock_master.Ingestion.Results.{run_of_set, run_fits-ok}
use stock_master.Ingestion.{
  Settings, run_symbols, complete_run, finish_run, run_fits, create_run, run_opened, run_locked,
  run_set, run,
}

has_run-append :
    (run_id : ℕ) (rows : List IngestionRun) (row : IngestionRun)
    → row.id ≡ run_id
    → has_run run_id (rows ++ row ∷ []) ≡ true
unfolding has_run
has_run-append run_id [] row h = ground (arith, h)
has_run-append run_id (r ∷ rows) row h = ground (arith, has_run-append run_id rows row h)

-- No item is one of the run.
abbrev pub IsUnused : ℕ → List IngestionRunItem → Type 0
IsUnused run_id = All (λ (i : IngestionRunItem). i.run_id ≢ run_id)

has_item-IsUnused :
    (run_id : ℕ) (symbol : Text) (items : List IngestionRunItem)
    → IsUnused run_id items
    → has_item run_id symbol items ≡ false
unfolding has_item
has_item-IsUnused run_id symbol [] h = refl
has_item-IsUnused run_id symbol (i ∷ items) h =
    let other : (i.run_id == run_id) ≡ false = ground (arith, h.0) in
    rw other (has_item-IsUnused run_id symbol items h.1)

IsUnused-IsFresh :
    (run_id : ℕ) (symbols : List Text) (items : List IngestionRunItem)
    → IsUnused run_id items
    → All (IsFresh run_id items) symbols
IsUnused-IsFresh run_id [] items h = tt
IsUnused-IsFresh run_id (x ∷ xs) items h =
    (has_item-IsUnused run_id x items h, IsUnused-IsFresh run_id xs items h)

-- The call returned, and the items of its outcome are the new rows.
pub record IsCompleted (run_id : ℕ) (s : RunState) (p : Result IngestionRunOutcome × RunState)
    : Type 0 where
  pub outcome : IngestionRunOutcome
  pub done : p.0 ≡ ok outcome
  pub rows : List IngestionRunItem
  pub items : p.1.items ≡ s.items ++ rows
  pub each : Each (IsItemOf run_id) outcome.items rows

module _ (st : Settings) where
  run_opened-IsCompleted :
      (run_id : ℕ) (symbols : List Text) (s : RunState)
      → IsRecorded run_id symbols s (run_symbols st run_id symbols s)
      → IsCompleted run_id s (run_opened st run_id symbols (ok tt) s)
  unfolding run_opened finish_run complete_run
  run_opened-IsCompleted run_id symbols s r =
      rw r.done (record { outcome = _; done = refl; rows = r.rows; items = r.items; each = r.each })

  run_locked-IsCompleted :
      (run_id : ℕ) (symbols : List Text) (s : RunState)
      → st.source_created ≡ ok tt
      → IsRecorded run_id symbols s (run_symbols st run_id symbols s)
      → IsCompleted run_id s (run_locked st run_id symbols s)
  unfolding run_locked finish_run complete_run
  run_locked-IsCompleted run_id [] s h r = record {
    outcome = _;
    done = refl;
    rows = [];
    items = sym (append-nil s.items);
    each = each_nil;
  }
  run_locked-IsCompleted run_id (symbol ∷ symbols) s h r =
      subst (λ c. IsCompleted run_id s (run_opened st run_id (symbol ∷ symbols) c s)) (sym h)
        (run_opened-IsCompleted run_id (symbol ∷ symbols) s r)

  run_set-IsCompleted :
      (mode : Text) (set : List Text) (s : RunState)
      → run_fits st.provider mode ≡ ok tt
      → st.source_created ≡ ok tt
      → ((run_id : ℕ) (z : RunState)
          → has_run run_id z.runs ≡ true
          → IsUnused run_id z.items
          → IsRecorded run_id set z (run_symbols st run_id set z))
      → IsUnused (s.session.world.uuid s.session.uuids_drawn) s.items
      → IsCompleted (s.session.world.uuid s.session.uuids_drawn) s (run_set st mode true set s)
  unfolding run_set create_run
  run_set-IsCompleted mode set s fits created ready unused = rw fits (
      let locked =
        run_locked-IsCompleted (s.session.world.uuid s.session.uuids_drawn) set _ created
          (ready _ _ (has_run-append _ s.runs _ refl) unused) in
      record {
        outcome = locked.outcome;
        done = locked.done;
        rows = locked.rows;
        items = locked.items;
        each = locked.each;
      })

  -- Whatever the data source answers to the attempts: when every symbol given is valid, the lock was
  -- acquired, the provider's name has at most 50 characters, the mode is one of the two that the table
  -- admits, the data source can be created, and no item has the identifier that the run draws, then the
  -- run returns, and what it adds to the items in the database is one row for each item of its outcome,
  -- in that order, of this run and with all that the item says.
  pub run-IsCompleted :
      (mode : Text) (symbols set : List Text) (s : RunState)
      → normalize_symbols symbols ≡ ok set
      → length st.provider ≤ 50
      → (mode ≡ codes "symbol") ⊎ (mode ≡ codes "active")
      → st.source_created ≡ ok tt
      → IsUnused (s.session.world.uuid s.session.uuids_drawn) s.items
      → IsCompleted (s.session.world.uuid s.session.uuids_drawn) s (run st mode true symbols s)
  run-IsCompleted mode symbols set s good short known created unused =
      let run_id = s.session.world.uuid s.session.uuids_drawn in
      let ready =
        λ (id : ℕ) (z : RunState) (present : has_run id z.runs ≡ true) (free : IsUnused id z.items).
          run_symbols-IsRecorded st id set z present (normalize_symbols-AllSymbols symbols set good)
            (Ascending-Unequal set (normalize_symbols-Ascending symbols set good))
            (IsUnused-IsFresh id set z.items free) in
      subst (IsCompleted run_id s) (sym (run_of_set st mode true symbols set s good)) (
        run_set-IsCompleted mode set s (run_fits-ok st.provider mode short known) created ready
          unused)
