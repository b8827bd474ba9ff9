-- ===== src/Snapshot.antt =====
-- web/src/lib/usage.ts: the events of a snapshot, and the snapshot of the events in a range. The fields
-- of a snapshot are numbers without NaN, as the server's JSON has them.
pub mod Range
pub mod Laws
pub mod Tally
pub mod Summary
pub mod Tables
pub mod Tests
use daili_usage_keeper_north.Base.{
  ℕ, ◌+◌, String, Bool, true, false, not, Option, none, some, List, [], ◌∷◌, ◌++◌, map, foldl, Dict,
  update, ℤ, pos, ◌+ℤ◌, ◌-ℤ◌, leb_ℤ, ltb_ℤ, max_ℤ, if◌then◌else◌, or_else, sort, filter, ◌&&◌,
}
use daili_usage_keeper_north.Host.{Host}
use daili_usage_keeper_north.Usage.{format_local_day_key, format_hour_bucket_key}
use daili_usage_keeper_north.Usage.Window.{
  TimeRange, all, hours_4, hours_8, hours_12, hours_24, today, days_7, custom,
}

pub record SnapshotTokens : Type 0 where
  pub input_tokens : ℤ
  pub output_tokens : ℤ
  pub reasoning_tokens : ℤ
  pub cached_tokens : ℤ
  pub total_tokens : ℤ

pub record SnapshotDetail : Type 0 where
  pub timestamp : String
  pub latency_ms : ℤ
  pub source : String
  pub auth_index : String
  pub failed : Bool
  pub tokens : SnapshotTokens

-- The four numbers that a snapshot, an API and a model have.
pub record Totals : Type 0 where
  pub total_requests : ℕ
  pub success_count : ℕ
  pub failure_count : ℕ
  pub total_tokens : ℤ

pub record ModelSnapshot : Type 0 where
  pub totals : Totals
  pub details : Option (List SnapshotDetail)

pub record ApiSnapshot : Type 0 where
  pub totals : Totals
  pub models : Dict ModelSnapshot

pub record UsageSnapshot : Type 0 where
  pub totals : Totals
  pub requests_by_day : Dict ℕ
  pub requests_by_hour : Dict ℕ
  pub tokens_by_day : Dict ℤ
  pub tokens_by_hour : Dict ℤ
  pub apis : Dict ApiSnapshot

-- A detail with the names of its API and its model.
pub record UsageEvent : Type 0 where
  pub detail : SnapshotDetail
  pub api_name : String
  pub model_name : String

abbrev pub tokens_of_event : UsageEvent → ℤ
tokens_of_event e = e.detail.tokens.total_tokens

unfoldable pub events_of_models : String → Dict ModelSnapshot → List UsageEvent
events_of_models api_name [] = []
events_of_models api_name ((model_name, model) ∷ models) =
    map (λ d. record { detail = d; api_name = api_name; model_name = model_name })
      (or_else model.details [])
    ++ events_of_models api_name models

unfoldable pub events_of_apis : Dict ApiSnapshot → List UsageEvent
unfolding events_of_models
events_of_apis [] = []
events_of_apis ((api_name, api) ∷ apis) =
    events_of_models api_name api.models ++ events_of_apis apis

-- `Date.parse(b) - Date.parse(a)` is NaN, which sorts as 0, or at most 0.
abbrev pub not_after : Option ℤ → Option ℤ → Bool
not_after none b = true
not_after (some a) none = true
not_after (some a) (some b) = leb_ℤ b a

abbrev pub no_totals : Totals
no_totals = record {
  total_requests = 0;
  success_count = 0;
  failure_count = 0;
  total_tokens = pos 0;
}

unfoldable pub count_event : UsageEvent → Totals → Totals
count_event e t = record {
  total_requests = t.total_requests + 1;
  success_count = if e.detail.failed then t.success_count else t.success_count + 1;
  failure_count = if e.detail.failed then t.failure_count + 1 else t.failure_count;
  total_tokens = t.total_tokens +ℤ tokens_of_event e;
}

abbrev pub no_model : ModelSnapshot
no_model = record { totals = no_totals; details = some [] }

unfoldable pub add_event_to_model : UsageEvent → Option ModelSnapshot → ModelSnapshot
unfolding count_event
add_event_to_model e given =
    let m = or_else given no_model in
    record {
      totals = count_event e m.totals;
      details = some (or_else m.details [] ++ e.detail ∷ []);
    }

abbrev pub no_api : ApiSnapshot
no_api = record { totals = no_totals; models = [] }

unfoldable pub add_event_to_api : UsageEvent → Option ApiSnapshot → ApiSnapshot
unfolding count_event add_event_to_model update
add_event_to_api e given =
    let a = or_else given no_api in
    record {
      totals = count_event e a.totals;
      models = update e.model_name (add_event_to_model e) a.models;
    }

abbrev pub no_snapshot : UsageSnapshot
no_snapshot = record {
  totals = no_totals;
  requests_by_day = [];
  requests_by_hour = [];
  tokens_by_day = [];
  tokens_by_hour = [];
  apis = [];
}

abbrev pub one_more : Option ℕ → ℕ
one_more o = or_else o 0 + 1

abbrev pub tokens_more : ℤ → Option ℤ → ℤ
tokens_more n o = or_else o (pos 0) +ℤ n

abbrev pub largest : ℤ → List ℤ → ℤ
largest t [] = t
largest t (u ∷ us) = largest (max_ℤ t u) us

-- `presetWindowMs[range] ?? 0`
abbrev pub preset_window_ms : TimeRange → ℕ
preset_window_ms hours_4 = 14_400_000
preset_window_ms hours_8 = 28_800_000
preset_window_ms hours_12 = 43_200_000
preset_window_ms hours_24 = 86_400_000
preset_window_ms days_7 = 604_800_000
preset_window_ms _ = 0

abbrev pub is_today : TimeRange → Bool
is_today today = true
is_today _ = false

abbrev pub is_whole : TimeRange → Bool
is_whole all = true
is_whole custom = true
is_whole _ = false

abbrev pub threshold_of : TimeRange → (midnight latest : ℤ) → ℤ
threshold_of range midnight latest =
    if is_today range then midnight else latest -ℤ pos (preset_window_ms range)

abbrev pub upper_threshold_of : TimeRange → ℤ → Option ℤ
upper_threshold_of range now = if is_today range then some now else none

module _ (h : Host) where
  abbrev pub time_of_event : UsageEvent → Option ℤ
  time_of_event e = h.parse_date e.detail.timestamp

  unfoldable pub collect_usage_events : UsageSnapshot → List UsageEvent
  unfolding events_of_apis sort
  collect_usage_events usage =
      sort (λ a b. not_after (time_of_event a) (time_of_event b)) (events_of_apis usage.apis)

  unfoldable pub finite_times : List UsageEvent → List ℤ
  finite_times [] = []
  finite_times (e ∷ es) =
      let rest = finite_times es in elim (time_of_event e) [ none ↦ rest | some t ↦ t ∷ rest ]

  -- `Math.max(…)` of the times that are finite; `none` is -Infinity.
  unfoldable pub latest_timestamp : List UsageEvent → Option ℤ
  unfolding finite_times
  latest_timestamp es = elim (finite_times es) [ [] ↦ none | t ∷ ts ↦ some (largest t ts) ]

  -- `timestampMs` is finite and not outside the thresholds.
  abbrev pub is_kept : ℤ → Option ℤ → UsageEvent → Bool
  is_kept threshold upper e = elim (time_of_event e) [
    | none ↦ false
    | some t ↦ not (ltb_ℤ t threshold) && elim upper [ none ↦ true | some u ↦ not (ltb_ℤ u t) ]
  ]

  -- The rest of the loop's body, for an event with a time.
  unfoldable pub add_event : ℤ → UsageEvent → UsageSnapshot → UsageSnapshot
  unfolding count_event add_event_to_api update format_local_day_key format_hour_bucket_key
  add_event time e s =
      let day = format_local_day_key h time in
      let hour = format_hour_bucket_key h time in
      record {
        totals = count_event e s.totals;
        requests_by_day = update day one_more s.requests_by_day;
        requests_by_hour = update hour one_more s.requests_by_hour;
        tokens_by_day = update day (tokens_more (tokens_of_event e)) s.tokens_by_day;
        tokens_by_hour = update hour (tokens_more (tokens_of_event e)) s.tokens_by_hour;
        apis = update e.api_name (add_event_to_api e) s.apis;
      }

  unfoldable pub filter_event : ℤ → Option ℤ → UsageSnapshot → UsageEvent → UsageSnapshot
  unfolding add_event
  filter_event threshold upper s e =
      if is_kept threshold upper e then add_event (or_else (time_of_event e) (pos 0)) e s else s

  -- `now` is `Date.now()` and `midnight` is `new Date(now).setHours(0, 0, 0, 0)`.
  unfoldable pub filter_from :
      TimeRange → (now midnight latest : ℤ) → List UsageEvent → UsageSnapshot
  unfolding filter_event
  filter_from range now midnight latest events =
      foldl (filter_event (threshold_of range midnight latest) (upper_threshold_of range now))
        no_snapshot events

  unfoldable pub filter_usage_snapshot :
      (now midnight : ℤ) → UsageSnapshot → TimeRange → UsageSnapshot
  unfolding collect_usage_events latest_timestamp filter_from
  filter_usage_snapshot now midnight usage range =
      if is_whole range
      then usage
      else let events = collect_usage_events usage in
        elim (latest_timestamp events) [
          | none ↦ usage
          | some latest ↦ filter_from range now midnight latest events
        ]
