-- ===== src/Ingestion/Results.antt =====
-- app/services/ingestion_runner.py: what a whole run returns.
use stock_master.Prelude.{
  ℕ, ◌+◌, ◌≤◌, ◌≡◌, refl, sym, ap, ◌∙◌, Text, List, [], ◌∷◌, ◌++◌, map, Bool, true, false, none,
  Result, ok, err, Error, inl, inr, arith, subst, length, length-map, codes, ◌⊎◌, ltb, text_eq,
}
use stock_master.Prelude.Exec.{bind-eq-ok, run-eq}
use stock_master.Ingestion.Outcomes.{
  SymbolIngestionOutcome, IngestionRunOutcome, IngestionRun, normalize_symbols,
}
use stock_master.Ingestion.Items.{RunState}
use stock_master.Ingestion.{
  Settings, run_symbols, succeeded_of, complete_run, finish_run, run_fits, create_run, run_opened,
  run_locked, drew_run, run_set, run,
}
use stock_master.Ingestion.Sorted.{Ascending, normalize_symbols-Ascending}
use stock_master.Ingestion.Named.{run_symbols-named, succeeded_of-le}

-- What a run that returned reports of its symbols.
pub record IsReport (symbols : List Text) (o : IngestionRunOutcome) : Type 0 where
  pub named : map (λ i. i.symbol) o.items ≡ symbols
  pub requested : o.requested_count ≡ length symbols
  pub counted : o.succeeded_count + o.failed_count ≡ o.requested_count
  pub succeeded : o.succeeded_count ≡ succeeded_of o.items

complete_run-IsReport :
    (st : Settings) (run_id : ℕ) (symbols : List Text) (outcomes : List SymbolIngestionOutcome)
    (s : RunState)
    → map (λ i. i.symbol) outcomes ≡ symbols
    → IsReport symbols (complete_run st run_id outcomes s).0
unfolding complete_run
complete_run-IsReport st run_id symbols outcomes s named = record {
  named = named;
  requested = sym (length-map (λ i. i.symbol) outcomes) ∙ ap length named;
  counted = omega (arith, succeeded_of-le outcomes);
  succeeded = refl;
}

finish_run-IsReport :
    (st : Settings) (run_id : ℕ) (symbols : List Text) (outcomes : List SymbolIngestionOutcome)
    (s z : RunState) (o : IngestionRunOutcome)
    → map (λ i. i.symbol) outcomes ≡ symbols
    → finish_run st run_id outcomes s ≡ (ok o, z)
    → IsReport symbols o
unfolding finish_run
finish_run-IsReport st run_id symbols outcomes s z o named h =
    let answer : (complete_run st run_id outcomes s).0 ≡ o = ground (arith, h) in
    subst (IsReport symbols) answer (complete_run-IsReport st run_id symbols outcomes s named)

run_opened-IsReport :
    (st : Settings) (run_id : ℕ) (symbols : List Text) (created : Result (Unit {0}))
    (s z : RunState) (o : IngestionRunOutcome)
    → run_opened st run_id symbols created s ≡ (ok o, z)
    → IsReport symbols o
unfolding run_opened
run_opened-IsReport st run_id symbols (err e) s z o h = absurd (ground (arith, h))
run_opened-IsReport st run_id symbols (ok u) s z o h =
    let (outcomes, ran, k) = bind-eq-ok (run_symbols st run_id symbols) _ s h in
    let w = (run_symbols st run_id symbols s).1 in
    let named =
      run_symbols-named st run_id symbols s w outcomes
        (run-eq (run_symbols st run_id symbols) s ran) in
    finish_run-IsReport st run_id symbols outcomes w z o named k

run_locked-IsReport :
    (st : Settings) (run_id : ℕ) (symbols : List Text) (s z : RunState) (o : IngestionRunOutcome)
    → run_locked st run_id symbols s ≡ (ok o, z)
    → IsReport symbols o
unfolding run_locked
run_locked-IsReport st run_id [] s z o h = finish_run-IsReport st run_id [] [] s z o refl h
run_locked-IsReport st run_id (symbol ∷ symbols) s z o h =
    run_opened-IsReport st run_id (symbol ∷ symbols) st.source_created s z o h

run_set-IsReport :
    (st : Settings) (mode : Text) (acquired : Bool) (set : List Text) (s z : RunState)
    (o : IngestionRunOutcome)
    → run_set st mode acquired set s ≡ (ok o, z)
    → (acquired ≡ true) × IsReport set o
unfolding run_set
run_set-IsReport st mode true set s z o h =
    let session = s.session in
    let run_id = session.world.uuid session.uuids_drawn in
    let started = session.world.clock session.instants_drawn in
    let created = create_run st run_id mode (length set) started in
    let (_, _, k) = bind-eq-ok created _ (drew_run s) h in
    (refl, run_locked-IsReport st run_id set _ z o k)
run_set-IsReport st mode false set s z o h = absurd (ground (arith, h))

pub run_of_set :
    (st : Settings) (mode : Text) (acquired : Bool) (symbols set : List Text) (s : RunState)
    → normalize_symbols symbols ≡ ok set
    → run st mode acquired symbols s ≡ run_set st mode acquired set s
unfolding run
run_of_set st mode acquired symbols set s good =
    ap
      (λ r. elim r as (λ x. Result IngestionRunOutcome × RunState) [
        | err e ↦ (err e, s)
        | ok z ↦ run_set st mode acquired z s
      ])
      good

run_result :
    (st : Settings) (mode : Text) (acquired : Bool) (r : Result (List Text)) (s z : RunState)
    (o : IngestionRunOutcome)
    → elim r as (λ x. Result IngestionRunOutcome × RunState) [
      | err e ↦ (err e, s)
      | ok set ↦ run_set st mode acquired set s
    ]
      ≡ (ok o, z)
    → (set : List Text) × (r ≡ ok set) × (run_set st mode acquired set s ≡ (ok o, z))
run_result st mode acquired (err e) s z o h = absurd (ground (arith, h))
run_result st mode acquired (ok set) s z o h = (set, refl, h)

-- When a run returns, it held the lock of the provider. Its items are those of the normalised symbols, each
-- once and in ascending order, its requested count is their number, its count of successes is that
-- of the items that succeeded, and the counts of successes and failures add up to the requested
-- count.
pub run-IsReport :
    (st : Settings) (mode : Text) (acquired : Bool) (symbols : List Text) (s z : RunState)
    (o : IngestionRunOutcome)
    → run st mode acquired symbols s ≡ (ok o, z)
    → (set : List Text) × (normalize_symbols symbols ≡ ok set)
      × Ascending set
      × (acquired ≡ true)
      × IsReport set o
unfolding run
run-IsReport st mode acquired symbols s z o h =
    let (set, good, ran) = run_result st mode acquired (normalize_symbols symbols) s z o h in
    let (held, report) = run_set-IsReport st mode acquired set s z o ran in
    (set, good, normalize_symbols-Ascending symbols set good, held, report)

-- A row of a run that has not ended.
pub record IsRunning (row : IngestionRun) : Type 0 where
  pub status : row.status ≡ codes "running"
  pub open_end : row.completed_at ≡ none

pub run_fits-ok :
    (source mode : Text)
    → length source ≤ 50
    → (mode ≡ codes "symbol") ⊎ (mode ≡ codes "active")
    → run_fits source mode ≡ ok tt
unfolding run_fits text_eq
run_fits-ok source mode short (inl e) =
    let fits : ltb 50 (length source) ≡ false = ground (arith, short) in rw (e, fits) refl
run_fits-ok source mode short (inr e) =
    let fits : ltb 50 (length source) ≡ false = ground (arith, short) in rw (e, fits) refl

run_locked-abandoned :
    (st : Settings) (run_id : ℕ) (symbol : Text) (symbols : List Text) (e : Error) (s : RunState)
    → st.source_created ≡ err e
    → run_locked st run_id (symbol ∷ symbols) s ≡ (err e, s)
unfolding run_locked run_opened
run_locked-abandoned st run_id symbol symbols e s h =
    ap (λ created. run_opened st run_id (symbol ∷ symbols) created s) h

run_set-abandoned :
    (st : Settings) (mode symbol : Text) (symbols : List Text) (e : Error) (s : RunState)
    → run_fits st.provider mode ≡ ok tt
    → st.source_created ≡ err e
    → ((run_set st mode true (symbol ∷ symbols) s).0 ≡ err e)
      × ((row : IngestionRun) × IsRunning row
          × ((run_set st mode true (symbol ∷ symbols) s).1.runs ≡ s.runs ++ row ∷ []))
unfolding run_set create_run
run_set-abandoned st mode symbol symbols e s fits h =
    let stopped = run_locked-abandoned st _ symbol symbols e _ h in
    rw fits (
      ap (λ p. p.0) stopped,
      (_, record { status = refl; open_end = refl }, ap (λ p. p.1.runs) stopped),
    )

-- When the lock was acquired and there are symbols, the provider's name has at most 50 characters, the mode
-- is one of the two that the table admits, and the data source cannot be created: the run raises what
-- the creation raised, and leaves a row of a run that has not ended.
pub run-abandoned :
    (st : Settings) (mode : Text) (symbols : List Text) (symbol : Text) (set : List Text)
    (e : Error) (s : RunState)
    → normalize_symbols symbols ≡ ok (symbol ∷ set)
    → length st.provider ≤ 50
    → (mode ≡ codes "symbol") ⊎ (mode ≡ codes "active")
    → st.source_created ≡ err e
    → ((run st mode true symbols s).0 ≡ err e)
      × ((row : IngestionRun) × IsRunning row
          × ((run st mode true symbols s).1.runs ≡ s.runs ++ row ∷ []))
run-abandoned st mode symbols symbol set e s good short known h =
    let same = run_of_set st mode true symbols (symbol ∷ set) s good in
    let fits = run_fits-ok st.provider mode short known in
    let (raised, (row, running, left)) = run_set-abandoned st mode symbol set e s fits h in
    (ap (λ p. p.0) same ∙ raised, (row, running, ap (λ p. p.1.runs) same ∙ left))
