-- ===== src/Thesis.antt =====
-- app/domain/thesis_models.py: the thesis, its conditions and their validators. Identifiers
-- (`UUID`) are numbers, since they are only compared.
pub mod Laws
use stock_master.Prelude.{
  ℕ, Text, Bool, true, false, ◌&&◌, ◌||◌, leb, ltb, ◌==◌, Option, none, some, Result, ok, err,
  validation_error, raise_if, ◌>>◌, if◌then◌else◌, not,
}
use stock_master.Decimal.{Decimal}
use stock_master.Text.{strip, length_within, is_symbol, normalize_symbol}

-- A timezone-aware `datetime`: its instant, and the calendar date that it shows in its own zone.
pub record DateTime : Type 0 where
  pub instant : ℕ
  pub date : ℕ

pub data ThesisStatus : Type 0 where
  active challenged invalidated archived : ThesisStatus

pub data ConditionKind : Type 0 where
  support risk invalidation : ConditionKind

pub data MetricCode : Type 0 where
  daily_price_change_percent volume_ratio_20d pe_ratio pe_ratio_change_percent : MetricCode
  price_to_book_ratio price_to_book_change_percent ebitda : MetricCode

pub data ComparisonOperator : Type 0 where
  greater_than greater_than_or_equal less_than less_than_or_equal : ComparisonOperator

-- The place of a member in its class, which tells members apart.
abbrev pub status_index : ThesisStatus → ℕ
status_index active = 0
status_index challenged = 1
status_index invalidated = 2
status_index archived = 3

abbrev pub kind_index : ConditionKind → ℕ
kind_index support = 0
kind_index risk = 1
kind_index invalidation = 2

abbrev pub metric_index : MetricCode → ℕ
metric_index daily_price_change_percent = 0
metric_index volume_ratio_20d = 1
metric_index pe_ratio = 2
metric_index pe_ratio_change_percent = 3
metric_index price_to_book_ratio = 4
metric_index price_to_book_change_percent = 5
metric_index ebitda = 6

-- `a is b` of enum members
abbrev pub same_status : ThesisStatus → ThesisStatus → Bool
same_status a b = status_index a == status_index b

abbrev pub same_kind : ConditionKind → ConditionKind → Bool
same_kind a b = kind_index a == kind_index b

abbrev pub same_metric : MetricCode → MetricCode → Bool
same_metric a b = metric_index a == metric_index b

pub record InvestmentThesis : Type 0 where
  pub id : ℕ
  pub user_id : ℕ
  pub symbol : Text
  pub title : Text
  pub description : Text
  pub status : ThesisStatus
  pub version : ℕ
  pub created_at : DateTime
  pub updated_at : DateTime

pub record ThesisStatusChange : Type 0 where
  pub id : ℕ
  pub thesis_id : ℕ
  pub user_id : ℕ
  pub from_status : ThesisStatus
  pub to_status : ThesisStatus
  pub reason : Text
  pub triggering_event_id : Option ℕ
  pub changed_at : DateTime

pub record ThesisCondition : Type 0 where
  pub id : ℕ
  pub thesis_id : ℕ
  pub user_id : ℕ
  pub name : Text
  pub description : Option Text
  pub kind : ConditionKind
  pub metric : MetricCode
  pub operator : ComparisonOperator
  pub threshold : Decimal
  pub consecutive_periods : ℕ
  pub enabled : Bool
  pub version : ℕ
  pub created_at : DateTime
  pub updated_at : DateTime

-- the declared constraints of the fields and `validate_timestamps`
unfoldable pub thesis_fits : InvestmentThesis → Bool
thesis_fits t =
    is_symbol t.symbol
    && length_within 1 200 t.title
    && length_within 1 5000 t.description
    && leb 1 t.version
    && leb t.created_at.instant t.updated_at.instant

-- `InvestmentThesis(...)`: the strings are normalised, then the constraints are tested.
unfoldable pub make_thesis : InvestmentThesis → Result InvestmentThesis
make_thesis t =
    let clean = record t {
      symbol = normalize_symbol t.symbol;
      title = strip t.title;
      description = strip t.description;
    } in
    if thesis_fits clean then ok clean else err validation_error

-- `max_length` of an optional string
unfoldable pub optional_within : ℕ → ℕ → Option Text → Bool
optional_within lo hi none = true
optional_within lo hi (some s) = length_within lo hi s

abbrev pub strip_optional : Option Text → Option Text
strip_optional none = none
strip_optional (some s) = some (strip s)

unfoldable pub condition_fits : ThesisCondition → Bool
unfolding optional_within
condition_fits c =
    length_within 1 200 c.name
    && optional_within 0 2000 c.description
    && (leb 1 c.consecutive_periods && leb c.consecutive_periods 12)
    && leb 1 c.version
    && leb c.created_at.instant c.updated_at.instant

-- `ThesisCondition(...)`
unfoldable pub make_condition : ThesisCondition → Result ThesisCondition
make_condition c =
    let clean = record c { name = strip c.name; description = strip_optional c.description } in
    if condition_fits clean then ok clean else err validation_error
