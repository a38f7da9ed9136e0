-- ===== src/Samples.antt =====
-- Sample models for the tests: one thesis, one condition that asks for two periods, and metrics.
use stock_master.Prelude.{ℕ, ◌+◌, ◌*◌, codes, [], ◌∷◌, true, none, some}
use stock_master.Prelude.Int.{pos, negsuc}
use stock_master.Thesis.{
  DateTime, InvestmentThesis, ThesisCondition, active, invalidation, daily_price_change_percent,
  less_than_or_equal,
}
use stock_master.Decimal.{of_ℕ}
use stock_master.MarketData.{DailyBar, raw}
use stock_master.Metric.{MetricResult}
use stock_master.Store.{World}

abbrev pub day : ℕ → DateTime
day n = record { instant = n * 86400; date = n }

abbrev pub aapl : InvestmentThesis
aapl = record {
  id = 11;
  user_id = 7;
  symbol = codes "AAPL";
  title = codes "Services";
  description = codes "Services remain a growth driver";
  status = active;
  version = 1;
  created_at = day 100;
  updated_at = day 100;
}

-- "the daily change is at most -5.0 per cent, for two days"
abbrev pub falls : ThesisCondition
falls = record {
  id = 21;
  thesis_id = 11;
  user_id = 7;
  name = codes "Falls twice";
  description = none;
  kind = invalidation;
  metric = daily_price_change_percent;
  operator = less_than_or_equal;
  threshold = record { coefficient = negsuc 49; exponent = negsuc 0 };
  consecutive_periods = 2;
  enabled = true;
  version = 1;
  created_at = day 100;
  updated_at = day 100;
}

-- a change of `-n` per cent on a day
abbrev pub fall_of : ℕ → ℕ → MetricResult
fall_of n d = record {
  metric = daily_price_change_percent;
  value = record { coefficient = negsuc n; exponent = pos 0 };
  data_as_of = d;
  observation_ids = d ∷ (d + 1) ∷ [];
  calculation_version = 1;
}

-- identifiers from 1000, a clock that ticks once a day, and columns that store a number as it is
abbrev pub a_world : World
a_world = record {
  uuid = λ n. 1000 + n;
  clock = λ n. day (300 + n);
  numeric = λ d. some d;
  price_numeric = λ d. some d;
  ratio_numeric = λ d. some d;
}

-- a bar of a day, from a source whose name is not in its normal form
abbrev pub bar_on : ℕ → DailyBar
bar_on n = record {
  observation_id = none;
  symbol = codes "AAPL";
  trading_date = n;
  «open» = of_ℕ 10;
  high = of_ℕ 20;
  low = of_ℕ 5;
  close = of_ℕ 15;
  volume = n;
  currency = codes "USD";
  adjustment = raw;
  source = codes " Test";
  received_at = day n;
}
