-- ===== src/Event.antt =====
-- app/domain/event_models.py: rule evaluations, domain events, their evidence and feedback.
pub mod Laws
use stock_master.Prelude.{
  ℕ, ◌≤◌, Text, List, [], ◌∷◌, Bool, true, false, ◌&&◌, ◌||◌, leb, ltb, ◌==◌, Option, none, some,
  Result, ok, err, validation_error, if◌then◌else◌, not,
}
use stock_master.Decimal.{Decimal}
use stock_master.Text.{strip, length_within, is_symbol, is_event_type, normalize_symbol}
use stock_master.Thesis.{DateTime, MetricCode, ComparisonOperator, optional_within, strip_optional}

pub data EventSeverity : Type 0 where
  info warning critical : EventSeverity

pub data EventStatus : Type 0 where
  open_event acknowledged resolved dismissed : EventStatus

pub data EvidenceType : Type 0 where
  metric_observation market_data calculation source_document : EvidenceType

pub data FeedbackType : Type 0 where
  useful not_useful false_positive confirmed ignored duplicate not_relevant : FeedbackType

pub record RuleEvaluation : Type 0 where
  pub id : ℕ
  pub user_id : ℕ
  pub thesis_id : ℕ
  pub condition_id : ℕ
  pub symbol : Text
  pub metric : MetricCode
  pub operator : ComparisonOperator
  pub observed_value : Decimal
  pub threshold : Decimal
  pub matched : Bool
  pub consecutive_periods_required : ℕ
  pub consecutive_periods_matched : ℕ
  pub rule_version : ℕ
  pub data_as_of : ℕ
  pub evaluated_at : DateTime
  pub observation_ids : List ℕ

abbrev pub is_empty : {A : Type 0} → List A → Bool
is_empty [] = true
is_empty (x ∷ xs) = false

-- `a == b` of Booleans
abbrev pub same_bool : Bool → Bool → Bool
same_bool true b = b
same_bool false b = not b

-- `validate_consecutive_periods`
unfoldable pub periods_consistent : RuleEvaluation → Bool
periods_consistent e =
    leb e.consecutive_periods_matched e.consecutive_periods_required
    && same_bool e.matched (leb e.consecutive_periods_required e.consecutive_periods_matched)

unfoldable pub evaluation_fits : RuleEvaluation → Bool
unfolding periods_consistent
evaluation_fits e =
    is_symbol e.symbol
    && (leb 1 e.consecutive_periods_required && leb e.consecutive_periods_required 12)
    && leb e.consecutive_periods_matched 12
    && leb 1 e.rule_version
    && not (is_empty e.observation_ids)
    && periods_consistent e

-- `RuleEvaluation(...)`
unfoldable pub make_evaluation : RuleEvaluation → Result RuleEvaluation
make_evaluation e =
    let clean = record e { symbol = normalize_symbol e.symbol } in
    if evaluation_fits clean then ok clean else err validation_error

pub record DomainEvent : Type 0 where
  pub id : ℕ
  pub user_id : ℕ
  pub thesis_id : ℕ
  pub condition_id : ℕ
  pub evaluation_id : ℕ
  pub symbol : Text
  pub event_type : Text
  pub severity : EventSeverity
  pub status : EventStatus
  pub title : Text
  pub summary : Text
  pub occurred_on : ℕ
  pub detected_at : DateTime
  pub rule_version : ℕ

unfoldable pub event_fits : DomainEvent → Bool
event_fits e =
    is_symbol e.symbol
    && is_event_type e.event_type
    && length_within 1 200 e.title
    && length_within 1 2000 e.summary
    && leb 1 e.rule_version

-- `DomainEvent(...)`
unfoldable pub make_event : DomainEvent → Result DomainEvent
make_event e =
    let clean = record e {
      symbol = normalize_symbol e.symbol;
      event_type = strip e.event_type;
      title = strip e.title;
      summary = strip e.summary;
    } in
    if event_fits clean then ok clean else err validation_error

pub record EventEvidence : Type 0 where
  pub id : ℕ
  pub event_id : ℕ
  pub user_id : ℕ
  pub evidence_type : EvidenceType
  pub source : Text
  pub source_record_id : Option ℕ
  pub source_reference : Option Text
  pub metric : Option MetricCode
  pub observed_value : Option Decimal
  pub description : Text
  pub excerpt : Option Text
  pub data_as_of : Option ℕ
  pub published_at : Option DateTime
  pub observed_at : DateTime

abbrev pub is_some : {A : Type 0} → Option A → Bool
is_some none = false
is_some (some a) = true

-- membership in `metric_evidence_types`
abbrev pub is_numeric : EvidenceType → Bool
is_numeric source_document = false
is_numeric _ = true

-- `published_at` is absent, or not later than `observed_at`
abbrev pub published_before : Option DateTime → DateTime → Bool
published_before none seen = true
published_before (some published) seen = leb published.instant seen.instant

-- the field constraints and `validate_metric_evidence`
unfoldable pub evidence_fits : EventEvidence → Bool
evidence_fits e =
    length_within 1 50 e.source
    && optional_within 0 500 e.source_reference
    && length_within 1 2000 e.description
    && optional_within 0 5000 e.excerpt
    && (not (is_numeric e.evidence_type) || (is_some e.metric && is_some e.observed_value))
    && published_before e.published_at e.observed_at

-- `EventEvidence(...)`
unfoldable pub make_evidence : EventEvidence → Result EventEvidence
make_evidence e =
    let clean = record e {
      source = strip e.source;
      source_reference = strip_optional e.source_reference;
      description = strip e.description;
      excerpt = strip_optional e.excerpt;
    } in
    if evidence_fits clean then ok clean else err validation_error

pub record EventFeedback : Type 0 where
  pub id : ℕ
  pub event_id : ℕ
  pub user_id : ℕ
  pub feedback_type : FeedbackType
  pub comment : Option Text
  pub created_at : DateTime
