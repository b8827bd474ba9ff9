-- ===== src/Overview/ChartHook.antt =====
-- The charts of requests and tokens on the overview: `useChartData` of
-- web/src/components/usage/hooks/useChartData.ts, and `getHourChartMinWidth` of
-- utils/usage/chartConfig.ts.
pub mod Laws
pub mod Tests
use daili_usage_keeper_north.Base.{
  ℕ, ◌*◌, min, String, Bool, true, false, not, ◌||◌, Option, none, some, List, [], ◌∷◌, map, Dict,
  ℤ, JsNumber, or_else, if◌then◌else◌, ◌==◌, decimal, ◌<>◌,
}
use daili_usage_keeper_north.Host.{Host}
use daili_usage_keeper_north.Usage.{Payload}
use daili_usage_keeper_north.Usage.Chart.{Period, hour, day, Metric, ChartData}
use daili_usage_keeper_north.Usage.Chart.Build.{Series, build_chart_data}

-- What the hook reads of `UsageOverviewSeries`; the series of a model is read for two of its fields.
pub record ModelSource : Type 0 where
  pub requests : Option (Dict JsNumber)
  pub tokens : Option (Dict JsNumber)

pub record ChartSource : Type 0 where
  pub requests : Option (Dict JsNumber)
  pub tokens : Option (Dict JsNumber)
  pub models : Option (Dict ModelSource)

-- `UsageOverviewPayload`; `model_series` is the one of its payload.
pub record OverviewPayload : Type 0 where
  pub usage : Payload
  pub model_series : Dict Series
  pub series : Option ChartSource
  pub hourly_series : Option ChartSource
  pub daily_series : Option ChartSource

abbrev pub series_of_source : ModelSource → Series
series_of_source s = record {
  requests_by_day = s.requests;
  requests_by_hour = s.requests;
  tokens_by_day = s.tokens;
  tokens_by_hour = s.tokens;
}

unfoldable pub build_chart_usage_from_overview :
    OverviewPayload → Option ChartSource → Payload × Dict Series
build_chart_usage_from_overview o none = (o.usage, o.model_series)
build_chart_usage_from_overview o (some s) = (
  record o.usage {
    requests_by_hour = s.requests;
    tokens_by_hour = s.tokens;
    requests_by_day = s.requests;
    tokens_by_day = s.tokens;
  },
  map (λ e. (e.0, series_of_source e.1)) (or_else s.models []),
)

-- `a ?? b`
abbrev pub or_other : Option ChartSource → Option ChartSource → Option ChartSource
or_other none b = b
or_other (some a) b = some a

abbrev pub chart_source : OverviewPayload → Period → Option ChartSource
chart_source o hour = or_other o.hourly_series o.series
chart_source o day = or_other o.daily_series o.series

-- `requestsChartData` and `tokensChartData`, by the metric; `clock` is `Date.now()`.
unfoldable pub hook_chart_data :
    Host
    → ℤ
    → Metric
    → Option OverviewPayload
    → Period
    → List String
    → Option JsNumber
    → Option JsNumber
    → ChartData
unfolding build_chart_usage_from_overview build_chart_data
hook_chart_data h clock metric none period chart_lines hours end_ms = record {
  labels = [];
  datasets = [];
}
hook_chart_data h clock metric (some o) period chart_lines hours end_ms =
    let (usage, series) = build_chart_usage_from_overview o (chart_source o period) in
    build_chart_data h clock usage series period metric chart_lines hours end_ms

unfoldable pub get_hour_chart_min_width : ℕ → Bool → Option String
unfolding decimal
get_hour_chart_min_width label_count is_mobile =
    if not is_mobile || label_count == 0
    then none
    else some (decimal (min (label_count * 56) 3000) <> "px")
