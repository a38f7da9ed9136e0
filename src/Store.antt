-- ===== src/Store.antt =====
-- The tables of app/database/domain_tables.py that app/database/thesis_repositories.py reads and
-- writes, within one open transaction of one session. Each table is the list of its rows in the
-- order of insertion. What a statement leaves to PostgreSQL is written out: `ON CONFLICT DO
-- NOTHING` looks for a row with the same unique key, a foreign key wants its row, and a violated
-- constraint raises `integrity_error`, a text that is too long for its column `data_error`.
pub mod Conditions
pub mod Evaluations
pub mod Events
pub mod Listing
pub mod Stock
pub mod Theses
use stock_master.Prelude.{ℕ, ◌+◌, List, Option, Bool, Text, ok}
use stock_master.Prelude.Exec.{Exec}
use stock_master.Decimal.{Decimal}
use stock_master.Thesis.{
  DateTime, InvestmentThesis, ThesisStatusChange, ThesisCondition, ConditionKind, MetricCode,
  ComparisonOperator,
}
use stock_master.MarketData.{DailyBar, CompanyFundamentals}
use stock_master.Event.{RuleEvaluation, DomainEvent, EventEvidence, EventFeedback}

-- A row of `thesis_condition_versions`
pub record ThesisConditionVersion : Type 0 where
  pub id : ℕ
  pub condition_id : ℕ
  pub thesis_id : ℕ
  pub user_id : ℕ
  pub version : ℕ
  pub name : Text
  pub description : Option Text
  pub kind : ConditionKind
  pub metric : MetricCode
  pub operator : ComparisonOperator
  pub threshold : Decimal
  pub consecutive_periods : ℕ
  pub enabled : Bool
  pub created_at : DateTime

-- What the process draws from outside: the values of `uuid4()` and of the clock, in the order in
-- which they are drawn, and what the columns of type `NUMERIC(30, 10)`, `NUMERIC(20, 8)` (prices)
-- and `NUMERIC(24, 8)` (ratios) store of a number, if they can. The identifiers that `uuid4()` draws
-- are taken to be unused: no statement tests them.
pub record World : Type 0 where
  pub uuid : ℕ → ℕ
  pub clock : ℕ → DateTime
  pub numeric : Decimal → Option Decimal
  pub price_numeric : Decimal → Option Decimal
  pub ratio_numeric : Decimal → Option Decimal

pub record Session : Type 0 where
  pub world : World
  pub uuids_drawn : ℕ
  pub instants_drawn : ℕ
  pub theses : List InvestmentThesis
  pub status_history : List ThesisStatusChange
  pub conditions : List ThesisCondition
  pub condition_versions : List ThesisConditionVersion
  pub evaluations : List RuleEvaluation
  pub events : List DomainEvent
  pub evidence : List EventEvidence
  pub feedback : List EventFeedback
  pub daily_bars : List DailyBar
  pub fundamentals : List CompanyFundamentals

-- `uuid4()`
unfoldable pub uuid4 : Exec Session ℕ
uuid4 s = (ok (s.world.uuid s.uuids_drawn), record s { uuids_drawn = s.uuids_drawn + 1 })

-- `datetime.now(UTC)`, or the clock that the service was given
unfoldable pub now : Exec Session DateTime
now s = (ok (s.world.clock s.instants_drawn), record s { instants_drawn = s.instants_drawn + 1 })
