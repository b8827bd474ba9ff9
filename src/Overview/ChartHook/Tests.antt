-- ===== src/Overview/ChartHook/Tests.antt =====
-- A chart of the overview by day, with the line of all traffic and that of one model.
use daili_usage_keeper_north.Base.{
  ◌≡◌, refl, String, none, some, List, [], ◌∷◌, map, Dict, pos, num, JsNumber,
}
use daili_usage_keeper_north.Usage.{Payload}
use daili_usage_keeper_north.Usage.Tests.{host}
use daili_usage_keeper_north.Usage.Chart.{day, requests}
use daili_usage_keeper_north.Overview.ChartHook.{ChartSource, OverviewPayload, hook_chart_data}
use daili_usage_keeper_north.Overview.ChartHook.Laws.{shown_line}

abbrev no_rows : Payload
no_rows = record {
  total_requests = none;
  success_count = none;
  failure_count = none;
  total_tokens = none;
  requests_by_day = none;
  requests_by_hour = none;
  tokens_by_day = none;
  tokens_by_hour = none;
  apis = none;
}

abbrev two_days : Dict JsNumber
two_days = ("2026-01-01", num (pos 5)) ∷ ("2026-01-02", num (pos 7)) ∷ []

abbrev daily : ChartSource
daily = record {
  requests = some two_days;
  tokens = none;
  models =
      some (
        ("gpt", record { requests = some (("2026-01-02", num (pos 2)) ∷ []); tokens = none }) ∷ []);
}

abbrev one_overview : OverviewPayload
one_overview = record {
  usage = no_rows;
  model_series = [];
  series = none;
  hourly_series = none;
  daily_series = some daily;
}

abbrev wanted : List String
wanted = "gpt" ∷ "all" ∷ "other" ∷ []

shown :
    map shown_line
      (hook_chart_data host (pos 0) requests (some one_overview) day wanted none none).datasets
    ≡ ("All", pos 5 ∷ pos 7 ∷ []) ∷ ("gpt", pos 0 ∷ pos 2 ∷ []) ∷ []
unfolding hook_chart_data
shown = refl
