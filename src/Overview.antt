-- ===== src/Overview.antt =====
-- What the cards of the overview show of the server's answer: `UsageOverviewResponse` of
-- web/src/lib/types.ts, `buildUsageSparklineSeries` of hooks/useSparklines.ts and `buildStatCardMetrics`
-- of StatCards.tsx. C is the type of the numbers that are not whole, such as costs. A field that may be
-- missing is an Option.
pub mod CostTrend
pub mod ChartHook
pub mod Tokens
pub mod Laws
pub mod Tests
use daili_usage_keeper_north.Base.{
  ℕ, String, Bool, true, false, Option, none, some, List, [], ◌∷◌, map, Dict, lookup, keys, ℤ, pos,
  or_else, sort, is_empty, if◌then◌else◌,
}
use daili_usage_keeper_north.Host.{Host}

pub record OverviewSeries (C : Type 0) : Type 0 where
  pub requests : Option (Dict ℤ)
  pub tokens : Option (Dict ℤ)
  pub rpm : Option (Dict C)
  pub tpm : Option (Dict C)
  pub cost : Option (Dict C)
  pub input_tokens : Option (Dict ℤ)
  pub output_tokens : Option (Dict ℤ)
  pub cached_tokens : Option (Dict ℤ)
  pub reasoning_tokens : Option (Dict ℤ)

pub record Summary (C : Type 0) : Type 0 where
  pub request_count : Option ℤ
  pub token_count : Option ℤ
  pub window_minutes : Option C
  pub rpm : Option C
  pub tpm : Option C
  pub total_cost : Option C
  pub cost_available : Option Bool
  pub cached_tokens : Option ℤ
  pub reasoning_tokens : Option ℤ

pub record Overview (C : Type 0) : Type 0 where
  pub summary : Option (Summary C)
  pub series : Option (OverviewSeries C)
  pub hourly_series : Option (OverviewSeries C)
  pub daily_series : Option (OverviewSeries C)

pub record SparklineSeries (C : Type 0) : Type 0 where
  pub labels : List String
  pub requests : List ℤ
  pub tokens : List ℤ
  pub rpm : List C
  pub tpm : List C
  pub cost : List C

pub record StatCardMetrics (C : Type 0) : Type 0 where
  pub cached_tokens : ℤ
  pub reasoning_tokens : ℤ
  pub rpm : C
  pub tpm : C
  pub window_minutes : C
  pub request_count : ℤ
  pub token_count : ℤ
  pub total_cost : C
  pub cost_available : Bool

-- `Number(series?.[label] ?? 0)`
abbrev pub value_at : {V : Type 0} → V → Option (Dict V) → String → V
value_at zero none label = zero
value_at zero (some d) label = or_else (lookup label d) zero

-- `Object.keys(d ?? {}).sort((a, b) => a.localeCompare(b))`
abbrev pub sorted_labels : {V : Type 0} → Host → Option (Dict V) → List String
sorted_labels h d = sort h.collates (keys (or_else d []))

-- `zero` and `one` are the numbers 0 and 1.
module _ {C : Type 0} (zero one : C) where
  abbrev pub no_sparklines : SparklineSeries C
  no_sparklines = record { labels = []; requests = []; tokens = []; rpm = []; tpm = []; cost = [] }

  abbrev pub sparklines_of : OverviewSeries C → List String → SparklineSeries C
  sparklines_of s labels = if is_empty labels then no_sparklines else record {
    labels = labels;
    requests = map (value_at (pos 0) s.requests) labels;
    tokens = map (value_at (pos 0) s.tokens) labels;
    rpm = map (value_at zero s.rpm) labels;
    tpm = map (value_at zero s.tpm) labels;
    cost = map (value_at zero s.cost) labels;
  }

  unfoldable pub build_usage_sparkline_series : Host → Option (Overview C) → SparklineSeries C
  unfolding sort lookup
  build_usage_sparkline_series h none = no_sparklines
  build_usage_sparkline_series h (some usage) = elim usage.series [
    | none ↦ no_sparklines
    | some s ↦ sparklines_of s (sorted_labels h s.requests)
  ]

  abbrev pub metrics_of : Option (Summary C) → StatCardMetrics C
  metrics_of none = record {
    cached_tokens = pos 0;
    reasoning_tokens = pos 0;
    rpm = zero;
    tpm = zero;
    window_minutes = one;
    request_count = pos 0;
    token_count = pos 0;
    total_cost = zero;
    cost_available = false;
  }
  metrics_of (some s) = record {
    cached_tokens = or_else s.cached_tokens (pos 0);
    reasoning_tokens = or_else s.reasoning_tokens (pos 0);
    rpm = or_else s.rpm zero;
    tpm = or_else s.tpm zero;
    window_minutes = or_else s.window_minutes one;
    request_count = or_else s.request_count (pos 0);
    token_count = or_else s.token_count (pos 0);
    total_cost = or_else s.total_cost zero;
    cost_available = or_else s.cost_available false;
  }

  unfoldable pub build_stat_card_metrics : Option (Overview C) → StatCardMetrics C
  build_stat_card_metrics none = metrics_of none
  build_stat_card_metrics (some usage) = metrics_of usage.summary
