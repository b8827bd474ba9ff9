-- ===== src/Snapshot/Summary.antt =====
-- The summaries and the trends of web/src/lib/usage.ts. Quotients are kept as the two numbers. An hour
-- of an event whose date cannot be read makes `toISOString` throw, which is `none`.
pub mod Laws
use daili_usage_keeper_north.Base.{
  ℕ, zero, suc, ◌+◌, ◌%◌, String, Bool, true, false, not, Option, none, some, List, [], ◌∷◌, ◌++◌,
  map, foldl, Dict, lookup, update, ℤ, pos, ◌+ℤ◌, ◌-ℤ◌, leb_ℤ, ltb_ℤ, if◌then◌else◌, or_else, sort,
  filter, length, take, text_or, get_elem?, ◌<>◌,
}
use daili_usage_keeper_north.Host.{Host}
use daili_usage_keeper_north.Usage.{format_hour_bucket_key}
use daili_usage_keeper_north.Usage.Stats.{Money}
use daili_usage_keeper_north.Page.Analysis.{from_entries}
use daili_usage_keeper_north.Page.Loader.Tabs.{PricingEntry}
use daili_usage_keeper_north.Snapshot.{
  UsageEvent, UsageSnapshot, ApiSnapshot, ModelSnapshot, SnapshotDetail, SnapshotTokens,
  tokens_of_event, time_of_event, collect_usage_events, latest_timestamp, tokens_more,
}

-- `requests_per` and `tokens_per` minute are these over the minutes of the window.
pub record RateStats : Type 0 where
  pub request_count : ℕ
  pub token_count : ℤ
  pub window_minutes : ℕ

pub record TokenBreakdown : Type 0 where
  pub input_tokens : ℤ
  pub output_tokens : ℤ
  pub reasoning_tokens : ℤ
  pub cached_tokens : ℤ

pub record EventRow : Type 0 where
  pub timestamp : String
  pub api_name : String
  pub model_name : String
  pub source : String
  pub auth_index : String
  pub failed : Bool
  pub latency_ms : ℤ
  pub tokens : SnapshotTokens

-- Whether an event is not before the start of the window.
abbrev pub is_recent_event : Host → Option ℤ → UsageEvent → Bool
is_recent_event h none e = false
is_recent_event h (some latest) e = elim (time_of_event h e) [
  | none ↦ false
  | some t ↦ leb_ℤ (latest -ℤ pos 1_800_000) t
]

unfoldable pub build_rate_stats : Host → UsageSnapshot → RateStats
unfolding collect_usage_events latest_timestamp
build_rate_stats h usage =
    let events = collect_usage_events h usage in
    let recent = filter (is_recent_event h (latest_timestamp h events)) events in
    record {
      request_count = length recent;
      token_count = foldl (λ sum e. sum +ℤ tokens_of_event e) (pos 0) recent;
      window_minutes = 30;
    }

abbrev pub no_breakdown : TokenBreakdown
no_breakdown = record {
  input_tokens = pos 0;
  output_tokens = pos 0;
  reasoning_tokens = pos 0;
  cached_tokens = pos 0;
}

unfoldable pub add_to_breakdown : TokenBreakdown → SnapshotDetail → TokenBreakdown
add_to_breakdown b d = record {
  input_tokens = b.input_tokens +ℤ d.tokens.input_tokens;
  output_tokens = b.output_tokens +ℤ d.tokens.output_tokens;
  reasoning_tokens = b.reasoning_tokens +ℤ d.tokens.reasoning_tokens;
  cached_tokens = b.cached_tokens +ℤ d.tokens.cached_tokens;
}

unfoldable pub breakdown_of_models : TokenBreakdown → Dict ModelSnapshot → TokenBreakdown
unfolding add_to_breakdown
breakdown_of_models b [] = b
breakdown_of_models b ((name, m) ∷ models) =
    breakdown_of_models (foldl add_to_breakdown b (or_else m.details [])) models

unfoldable pub breakdown_of_apis : TokenBreakdown → Dict ApiSnapshot → TokenBreakdown
unfolding breakdown_of_models
breakdown_of_apis b [] = b
breakdown_of_apis b ((name, a) ∷ apis) = breakdown_of_apis (breakdown_of_models b a.models) apis

unfoldable pub build_token_breakdown : UsageSnapshot → TokenBreakdown
unfolding breakdown_of_apis
build_token_breakdown usage = breakdown_of_apis no_breakdown usage.apis

unfoldable pub event_row : UsageEvent → EventRow
event_row e = record {
  timestamp = e.detail.timestamp;
  api_name = e.api_name;
  model_name = e.model_name;
  source = text_or e.detail.source "-";
  auth_index = text_or e.detail.auth_index "-";
  failed = e.detail.failed;
  latency_ms = e.detail.latency_ms;
  tokens = e.detail.tokens;
}

unfoldable pub build_recent_events : Host → ℕ → UsageSnapshot → List EventRow
unfolding collect_usage_events event_row
build_recent_events h limit usage = take limit (map event_row (collect_usage_events h usage))

-- `{ label, value }`, by their labels.
unfoldable pub build_trend_points {ℓ} : {V : Type ℓ} → Host → Dict V → Dict V
unfolding sort
build_trend_points h series = sort (λ a b. h.collates a.0 b.0) series

-- The hour of an event.
abbrev pub hour_of_event : Host → UsageEvent → Option String
hour_of_event h e = elim (time_of_event h e) [
  | none ↦ none
  | some t ↦ some (format_hour_bucket_key h t)
]

module _ {C : Type 0} (money : Money C) where
  abbrev pub price_map : List (PricingEntry C) → Dict (PricingEntry C)
  price_map pricing = from_entries (λ e. e.model) (λ e. e) [] pricing

  unfoldable pub calculate_event_cost : Dict (PricingEntry C) → UsageEvent → C
  unfolding lookup
  calculate_event_cost prices e = elim (lookup e.model_name prices) [
    | none ↦ money.nothing
    | some p ↦
        money.plus
          (money.plus (money.charge e.detail.tokens.input_tokens p.prompt_price_per_1m)
            (money.charge e.detail.tokens.output_tokens p.completion_price_per_1m))
          (money.charge e.detail.tokens.cached_tokens p.cache_price_per_1m)
  ]

  module _ (h : Host) where
    unfoldable pub build_cost_summary : UsageSnapshot → List (PricingEntry C) → C
    unfolding collect_usage_events calculate_event_cost from_entries
    build_cost_summary usage pricing =
        foldl (λ sum e. money.plus sum (calculate_event_cost (price_map pricing) e)) money.nothing
          (collect_usage_events h usage)

    unfoldable pub cost_buckets : Dict (PricingEntry C) → Dict C → List UsageEvent → Option (Dict C)
    unfolding calculate_event_cost update
    cost_buckets prices m [] = some m
    cost_buckets prices m (e ∷ es) = elim (hour_of_event h e) [
      | none ↦ none
      | some hour ↦
          cost_buckets prices
            (update hour (λ o. money.plus (or_else o money.nothing) (calculate_event_cost prices e))
              m)
            es
    ]

    unfoldable pub build_cost_trend_points : UsageSnapshot → List (PricingEntry C) → Option (Dict C)
    unfolding cost_buckets build_trend_points collect_usage_events from_entries
    build_cost_trend_points usage pricing =
        elim (cost_buckets (price_map pricing) [] (collect_usage_events h usage)) [
          | none ↦ none
          | some buckets ↦ some (build_trend_points h buckets)
        ]

pub data Dimension : Type 0 where
  by_api by_model : Dimension

pub data SeriesMetric : Type 0 where
  requests_metric tokens_metric : SeriesMetric

pub record TrendSeries : Type 0 where
  pub key : String
  pub color : String
  pub points : Dict ℤ

abbrev pub series_colors : List String
series_colors =
    "#2563eb" ∷ "#7c3aed" ∷ "#10b981" ∷ "#f97316" ∷ "#dc2626" ∷ "#0891b2" ∷ "#f59e0b" ∷ []

abbrev pub dimension_key : Dimension → UsageEvent → String
dimension_key by_api e = e.api_name
dimension_key by_model e = e.model_name

abbrev pub metric_value : SeriesMetric → UsageEvent → ℤ
metric_value requests_metric e = pos 1
metric_value tokens_metric e = tokens_of_event e

abbrev pub sum_of_points : Dict ℤ → ℤ
sum_of_points [] = pos 0
sum_of_points ((label, n) ∷ m) = n +ℤ sum_of_points m

module _ (h : Host) (dimension : Dimension) (metric : SeriesMetric) where
  unfoldable pub group_series : Dict (Dict ℤ) → List UsageEvent → Option (Dict (Dict ℤ))
  unfolding update
  group_series m [] = some m
  group_series m (e ∷ es) = elim (hour_of_event h e) [
    | none ↦ none
    | some hour ↦
        group_series
          (update (dimension_key dimension e)
            (λ o. update hour (tokens_more (metric_value metric e)) (or_else o [])) m)
          es
  ]

  abbrev pub series_from : ℕ → Dict (Dict ℤ) → List TrendSeries
  series_from index [] = []
  series_from index ((key, points) ∷ m) =
      record {
        key = key;
        color = or_else (get_elem? series_colors (index % 7)) "";
        points = build_trend_points h points;
      }
      ∷ series_from (index + 1) m

  -- `buildSeriesTrends` for a dimension other than `all`: the five largest series.
  unfoldable pub build_series_trends : UsageSnapshot → Option (List TrendSeries)
  unfolding collect_usage_events group_series build_trend_points sort
  build_series_trends usage = elim (group_series [] (collect_usage_events h usage)) [
    | none ↦ none
    | some grouped ↦ some (
        take 5 (
          sort (λ a b. leb_ℤ (sum_of_points b.points) (sum_of_points a.points))
            (series_from 0 grouped)))
  ]
