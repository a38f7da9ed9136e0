-- ===== src/Lib.antt =====
-- Theses on stocks that are monitored by rules: the core of the back end under app/.
--
-- The program keeps investment theses and, for each, conditions on metrics of market data. A
-- monitoring run calculates each condition's metric from persisted daily bars or company
-- fundamentals, lets the rule engine compare it with the threshold and count the consecutive
-- periods that matched, and stores one evaluation for each version of the condition and each date.
-- Users and the monitoring service move the theses through a status machine whose history is kept.
--
-- Which file models which part:
--   Prelude, Prelude/*   lists, orders, outcomes (Result for a call that returns or raises) and Exec
--                        (a method that changes a state and may raise; the state comes back
--                        beside the error)
--   Text, Decimal        str.strip, str.upper, str.lower; decimal.Decimal with its comparison and
--                        the arithmetic of the default context (28 digits, half to even)
--   Thesis, Event        app/domain/thesis_models.py and event_models.py: records, validators
--                        (make_thesis is InvestmentThesis(...), and so on)
--   MarketData           app/data_sources/models.py and fundamental_models.py
--   Metric/*             app/domain/metric_calculator.py: Series the preparation of observations,
--                        Calculate the calculators, Bars and Fundamentals the proofs; Registry is
--                        app/domain/metric_registry.py
--   Rules, Rules/*       app/domain/rule_engine.py: evaluate_condition and its helpers under the
--                        names that they have there, without the leading underscore; History,
--                        Counts, Consecutive, Outcome and Streak hold the proofs
--   Store, Store/*       app/database/thesis_repositories.py over the tables of
--                        app/database/domain_tables.py, as actions on a Session: Theses
--                        (create_thesis, update_thesis, ...), Conditions (create_condition,
--                        update_condition, list_conditions, ...), Listing (the listings with
--                        pages, and the feedback), Evaluations (save_rule_evaluation,
--                        list_prior_evaluations, ...) and Events (save_event_with_evidence, ...), each with
--                        its proofs below it; Stock is app/database/repositories.py over the tables of
--                        app/database/tables.py
--   Ingestion, Ingestion/*  app/services/ingestion_runner.py: run and what it calls, over a RunState of the
--                        Session, the rows of the runs and the runner's counters; Refresh is
--                        app/services/stock_ingestion_service.py, Outcomes the symbols and outcomes,
--                        Items the rows of the items with their constraints
--   Monitoring, Monitoring/*  app/services/thesis_monitoring_service.py: evaluate_thesis over the Session;
--                        Build holds what it builds without the session, Text/Render the texts of
--                        numbers and identifiers that it writes into events and evidence
--   Samples, */Tests     sample data, and the theorems at concrete inputs
--
-- How state is modelled: a Session holds the tables as lists of rows in the order of insertion, and
-- what the process draws from outside: the values of uuid4(), the readings of the clock and what
-- a NUMERIC column stores of a number, which are parameters (World). Every statement that
-- a method executes is written out: ON CONFLICT DO NOTHING looks for a row with the same key, and an
-- UPDATE changes every row that its clause hits. The
-- constraints of ingestion_runs and ingestion_run_items (lengths, mode, the run's row, one item for a
-- symbol of a run) are tests before the INSERT. An operation that raises is rolled back by the
-- caller's transaction; the model returns the session as the method left it.
--
-- Bounds: identifiers (UUID), dates and code points are natural numbers, and a datetime is its instant with
-- the date that it shows; Decimal has no bound but the 28 digits of a result. Every
-- loop is a recursion on a list, or on the attempts that are left for a symbol, but for the digits of a number: their fuel is the number plus one,
-- which Text/Render/Laws shows to be enough.
--
-- Limits: upper and lower change the ASCII letters only. The Integer columns have no upper bound (the
-- version of a thesis, the counts of a run), and the primary keys that are drawn by uuid4() are not looked for in
-- the table. The bars of one statement are normalised and stored bar by bar, so where one bar has a source
-- that is refused and another a number that the table refuses, the model may raise the other of the two errors;
-- the length of a bar's symbol is not tested again, since the model of a bar has validated it.
--
-- Not modelled: concurrent transactions (a step is one operation of one session), the HTTP and command
-- line interfaces, the clients of outside services, migrations and the web console. The agent
-- layer is not modelled either. The answers of the data sources and the lock of the
-- database are parameters of the ingestion, and its waits are left out.
pub mod Decimal
pub mod Event
pub mod Ingestion
pub mod MarketData
pub mod Metric
pub mod Monitoring
pub mod Prelude
pub mod Rules
pub mod Samples
pub mod Store
pub mod Text
pub mod Thesis
