-- ===== src/Ingestion/Tests.antt =====
-- The theorems on app/services/ingestion_runner.py, at a batch whose provider fails, and at one that
-- refreshes a symbol that is named twice.
use stock_master.Prelude.{
  ◌≡◌, refl, arith, Text, text_eq, List, [], ◌∷◌, ◌++◌, Bool, true, false, none, some, Result, ok,
  err, codes, timeout_error, value_error, All, inl, inr,
}
use stock_master.Prelude.Upsert.{upsert}
use stock_master.Prelude.Exec.{run-eq}
use stock_master.Decimal.{of_ℕ, ltb_dec, leb_dec}
use stock_master.Text.{strip, upper, lower, is_space, is_symbol, length_within}
use stock_master.MarketData.{CompanyFundamentals}
use stock_master.Store.{uuid4}
use stock_master.Store.Theses.Timeline.{empty_session}
use stock_master.Store.Stock.{
  save_daily_bars, insert_bars, put_bars, number_bars, upsert_bars, merge_bar,
  save_company_fundamentals, effective_snapshot_date,
}
use stock_master.Store.Stock.Rows.{
  normalize_source, same_bar, same_snapshot, stored_bar, stored_bars, some_twice, some_same_bar,
  stored_price, stored_volume, bar_row_fits, stored_snapshot, stored_ratio,
}
use stock_master.Ingestion.Refresh.{Answer, refresh_symbol, refresh_bars, validate_symbols}
use stock_master.Ingestion.Outcomes.{
  SymbolIngestionOutcome, IngestionRunOutcome, IngestionRun, normalize_run_symbol,
  normalize_symbols, add_symbol, text_before, circuit_open, failure_of, success_of,
}
use stock_master.Ingestion.{
  Settings, commit, settle, attempt, retry, report_failure, conclude_symbol, refresh_with_retry,
  run_one, run_symbols, succeeded_of, complete_run, finish_run, run_fits, create_run, run_opened,
  run_locked, run_set, run,
}
use stock_master.Ingestion.Spent.{IsUntouched}
use stock_master.Ingestion.Breaker.{budget, run_symbols-down}
use stock_master.Ingestion.Recorded.{IsRecorded, Unequal, IsFresh, run_symbols-IsRecorded}
use stock_master.Ingestion.Sorted.{Ascending}
use stock_master.Ingestion.Items.{
  RunState, has_run, has_item, item_fits, drew_item, item_of, insert_item, save_item,
}
use stock_master.Ingestion.Completed.{IsCompleted, run-IsCompleted}
use stock_master.Ingestion.Results.{IsReport, IsRunning, run-IsReport, run-abandoned}
use stock_master.Samples.{a_world, day, bar_on}

abbrev report : CompanyFundamentals
report = record {
  observation_id = none;
  snapshot_date = none;
  symbol = codes "AAPL";
  latest_quarter = none;
  pe_ratio = some (of_ℕ 30);
  price_to_book_ratio = none;
  ebitda = none;
  currency = codes "USD";
  source = codes "test";
  received_at = day 202;
}

abbrev good : Answer
good = record { bars = ok (bar_on 201 ∷ bar_on 202 ∷ []); fundamentals = ok report }

abbrev bad : Answer
bad = record { bars = err timeout_error; fundamentals = err timeout_error }

-- a runner whose provider answers every attempt in one way
abbrev runner : Answer → Settings
runner answer = record {
  provider = codes "test";
  failure_threshold = 3;
  max_attempts = 2;
  source_created = ok tt;
  answers = λ n symbol. answer;
}

abbrev start : RunState
start = record {
  session = empty_session a_world 0 0;
  runs = [];
  items = [];
  attempts = 0;
  consecutive_failures = 0;
}

abbrev five : List Text
five = codes "A" ∷ codes "B" ∷ codes "C" ∷ codes "D" ∷ codes "E" ∷ []

-- the tables with the row of a run
abbrev opened : RunState
opened = record start {
  runs =
      (record {
        id = 1;
        source = codes "test";
        mode = codes "active";
        status = codes "running";
        requested_count = 5;
        succeeded_count = 0;
        failed_count = 0;
        started_at = day 203;
        completed_at = none;
      })
      ∷ [];
}

abbrev failures : List SymbolIngestionOutcome
failures =
    failure_of (codes "A") (some timeout_error)
    ∷ failure_of (codes "B") (some timeout_error)
    ∷ failure_of (codes "C") (some timeout_error)
    ∷ circuit_open (codes "D")
    ∷ circuit_open (codes "E")
    ∷ []

failed : (run_symbols (runner bad) 1 five opened).0 ≡ ok failures
unfolding run_symbols run_one refresh_with_retry conclude_symbol retry attempt settle refresh_symbol
    is_space strip upper report_failure save_item item_fits has_item has_run insert_item drew_item
    item_of text_eq failure_of circuit_open
failed = refl

none_succeeded : succeeded_of failures ≡ 0
unfolding succeeded_of failure_of circuit_open
none_succeeded = refl

run_symbols-down_example :
    IsUntouched (budget (runner bad) opened) opened (run_symbols (runner bad) 1 five opened).1
run_symbols-down_example =
    run_symbols-down (runner bad) 1 five opened (run_symbols (runner bad) 1 five opened).1 failures
      (run-eq (run_symbols (runner bad) 1 five) opened failed) none_succeeded

present : has_run 1 opened.runs ≡ true
unfolding has_run
present = refl

five_symbols : All (λ x. is_symbol x ≡ true) five
unfolding is_symbol length_within
five_symbols = ground arith

five-Unequal : Unequal five
unfolding text_eq
five-Unequal = ground arith

five-IsFresh : All (IsFresh 1 opened.items) five
unfolding has_item
five-IsFresh = ground arith

run_symbols-IsRecorded_example : IsRecorded 1 five opened (run_symbols (runner bad) 1 five opened)
run_symbols-IsRecorded_example =
    run_symbols-IsRecorded (runner bad) 1 five opened present five_symbols five-Unequal five-IsFresh

-- one symbol, named twice
abbrev twice : List Text
twice = codes "aapl" ∷ codes " AAPL" ∷ []

abbrev no_outcome : IngestionRunOutcome
no_outcome = record {
  run_id = 0;
  source = [];
  status = [];
  requested_count = 0;
  succeeded_count = 0;
  failed_count = 0;
  items = [];
}

abbrev outcome_of : Result IngestionRunOutcome → IngestionRunOutcome
outcome_of (ok o) = o
outcome_of (err e) = no_outcome

abbrev is_ok : Result IngestionRunOutcome → Bool
is_ok (ok o) = true
is_ok (err e) = false

run-eq_ok :
    (p : Result IngestionRunOutcome × RunState) → is_ok p.0 ≡ true → p ≡ (ok (outcome_of p.0), p.1)
run-eq_ok (ok o, s) h = refl
run-eq_ok (err e, s) h = absurd (ground arith)

abbrev ran : Result IngestionRunOutcome × RunState
ran = run (runner good) (codes "symbol") true twice start

-- both attempts at the one symbol are one refresh
one_refresh : (is_ok ran.0 ≡ true) × (ran.1.attempts ≡ 1) × ((outcome_of ran.0).succeeded_count ≡ 1)
unfolding run create_run run_fits run_set run_locked run_opened complete_run finish_run run_symbols
    save_item item_fits has_item has_run insert_item drew_item item_of commit run_one
    refresh_with_retry conclude_symbol retry attempt settle refresh_symbol refresh_bars
    validate_symbols normalize_symbols normalize_run_symbol add_symbol strip upper lower is_space
    is_symbol text_before text_eq report_failure success_of succeeded_of save_daily_bars insert_bars
    put_bars number_bars upsert_bars merge_bar upsert save_company_fundamentals
    effective_snapshot_date normalize_source same_bar same_snapshot stored_bar stored_bars
    some_twice some_same_bar stored_price stored_volume bar_row_fits stored_snapshot stored_ratio
    uuid4 ltb_dec leb_dec
one_refresh = (refl, refl, refl)

run-IsReport_example :
    (set : List Text) × (normalize_symbols twice ≡ ok set)
    × Ascending set
    × (true ≡ true)
    × IsReport set (outcome_of ran.0)
run-IsReport_example =
    run-IsReport (runner good) (codes "symbol") true twice start ran.1 (outcome_of ran.0)
      (run-eq_ok ran one_refresh.0)

normal : normalize_symbols twice ≡ ok (codes "AAPL" ∷ [])
unfolding normalize_symbols normalize_run_symbol add_symbol strip upper is_space is_symbol text_eq
normal = refl

-- whatever the provider answers: here it fails
run-IsCompleted_example :
    IsCompleted (a_world.uuid 0) start (run (runner bad) (codes "active") true twice start)
run-IsCompleted_example =
    run-IsCompleted (runner bad) (codes "active") twice (codes "AAPL" ∷ []) start normal
      (omega arith) (inr refl) refl tt

-- a provider that is not known
abbrev unknown : Settings
unknown = record (runner good) { source_created = err value_error }

run-abandoned_example :
    ((run unknown (codes "symbol") true twice start).0 ≡ err value_error)
    × ((row : IngestionRun) × IsRunning row
        × ((run unknown (codes "symbol") true twice start).1.runs ≡ start.runs ++ row ∷ []))
run-abandoned_example =
    run-abandoned unknown (codes "symbol") twice (codes "AAPL") [] value_error start normal
      (omega arith) (inl refl) refl
