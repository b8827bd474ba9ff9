-- ===== src/Usage/Tests.antt =====
-- Runs of web/src/utils/usage.ts on a small payload, and the theorems about it at concrete inputs.
use mathlib.Core.List.{Perm}
use daili_usage_keeper_north.Base.{
  ◌≡◌, refl, String, Bool, true, false, Option, none, some, List, [], ◌∷◌, map, filter, length,
  str_eq, of_items, lookup, ℤ, pos, ◌+ℤ◌, num, JsNumber, nan, ◌<>◌, ◌↔◌, ◌/◌, decimal,
  if◌then◌else◌, int_laws,
}
use daili_usage_keeper_north.Host.{Host}
use daili_usage_keeper_north.Usage.{Tokens, Detail, Model, Payload, DetailRecord}
use daili_usage_keeper_north.Usage.Details.{collect_usage_details}
use daili_usage_keeper_north.Usage.Rebuild.{
  model_key, api_key, build_usage_from_details, to_payload, day_of, hour_of,
}
use daili_usage_keeper_north.Usage.Rebuild.Counts.{
  built_model, model_at, model_at-build, token_sum, lookup-buckets-build,
}
use daili_usage_keeper_north.Usage.Rebuild.RoundTrip.{core, rebuilt_core, collect-build-perm}
use daili_usage_keeper_north.Usage.Window.{
  hours_4, TimeValue, UsageFilterWindow, WindowOptions, in_window, filter_usage_by_window,
  resolve_usage_filter_window,
}
use daili_usage_keeper_north.Usage.Window.Laws.{
  IsProper, LiesIn, resolve_usage_filter_window-IsProper, filter_usage_by_window_lem,
}

-- A host whose dates are decimal counts of milliseconds: three of them, and NaN for the rest.
unfoldable pub parse : String → Option ℤ
parse s =
    if str_eq s "1000"
    then some (pos 1000)
    else if str_eq s "7200000"
    then some (pos 7_200_000)
    else if str_eq s "9000000"
    then some (pos 9_000_000)
    else none

pub hour_text : ℤ → String
hour_text (pos n) = decimal (n / 3_600_000)
hour_text _ = ""

abbrev pub host : Host
host = record {
  parse_date = parse;
  local_day = λ t. (1970, 1, 1);
  local_clock = λ t. (0, 0);
  iso_string = λ t. hour_text t <> ":00:00.000Z";
  iso_hour = hour_text;
  collates = λ a b. true;
}

abbrev tokens : ℤ → ℤ → JsNumber → Tokens
tokens input output total = record {
  input_tokens = num input;
  output_tokens = num output;
  reasoning_tokens = nan;
  cached_tokens = num (pos 0);
  cache_tokens = none;
  total_tokens = total;
}

abbrev row : String → Bool → Tokens → Detail
row time failed given = record {
  timestamp = time;
  latency_ms = num (pos 12);
  source = "key";
  source_raw = none;
  source_display = none;
  source_type = none;
  source_key = none;
  auth_index = "";
  failed = failed;
  tokens = given;
}

abbrev model_of : List Detail → Model
model_of ds = record {
  total_requests = num (pos 0);
  success_count = num (pos 0);
  failure_count = num (pos 0);
  total_tokens = num (pos 0);
  details = some ds;
}

-- Two APIs; the second row has no total, and the last one no date.
abbrev pub payload : Payload
payload = record {
  total_requests = none;
  success_count = none;
  failure_count = none;
  total_tokens = none;
  requests_by_day = none;
  requests_by_hour = none;
  tokens_by_day = none;
  tokens_by_hour = none;
  apis = some (
      (
        "a",
        record {
          display_name = some " A ";
          total_requests = num (pos 0);
          success_count = num (pos 0);
          failure_count = num (pos 0);
          total_tokens = num (pos 0);
          models = some (
              ("m", model_of (row "1000" false (tokens (pos 1) (pos 2) (num (pos 9))) ∷ []))
              ∷ ("n", model_of (row "9000000" true (tokens (pos 3) (pos 4) nan) ∷ []))
              ∷ []);
        },
      )
      ∷ (
        "",
        record {
          display_name = none;
          total_requests = num (pos 0);
          success_count = num (pos 0);
          failure_count = num (pos 0);
          total_tokens = num (pos 0);
          models = some (("m", model_of (row "?" false (tokens (pos 5) (pos 0) nan) ∷ [])) ∷ []);
        },
      )
      ∷ []);
}

abbrev pub rows : List DetailRecord
rows = collect_usage_details host (some payload)

newest_row_first : map (λ d. d.timestamp) rows ≡ "9000000" ∷ "1000" ∷ "?" ∷ []
unfolding collect_usage_details parse
newest_row_first = refl

counts_of_rows :
    (build_usage_from_details host rows).counters
    ≡ record { total_requests = 3; success_count = 2; failure_count = 1; total_tokens = pos 21 }
unfolding collect_usage_details parse build_usage_from_details ◌+ℤ◌
counts_of_rows = refl

model_at-build_example :
    model_at "a" "n" (build_usage_from_details host rows)
    ≡ of_items built_model
        (filter (λ d. str_eq (model_key d) "n") (filter (λ d. str_eq (api_key d) "a") rows))
model_at-build_example = model_at-build host "a" "n" rows

lookup-buckets-build_example :
    let u = build_usage_from_details host rows in
    let on_day = filter (λ d. str_eq (day_of host d) "1970-01-01") rows in
    let in_hour = filter (λ d. str_eq (hour_of host d) "1970-01-01") rows in
    (lookup "1970-01-01" u.requests_by_day ≡ of_items length on_day)
    × (lookup "1970-01-01" u.requests_by_hour ≡ of_items length in_hour)
    × (lookup "1970-01-01" u.tokens_by_day ≡ of_items token_sum on_day)
    × (lookup "1970-01-01" u.tokens_by_hour ≡ of_items token_sum in_hour)
lookup-buckets-build_example = lookup-buckets-build host "1970-01-01" rows

collect-build-perm_example :
    Perm
      (map core
        (collect_usage_details host (some (to_payload (build_usage_from_details host rows)))))
      (map rebuilt_core rows)
collect-build-perm_example = collect-build-perm host rows

abbrev half_hours : UsageFilterWindow
half_hours = record { start_ms = some (pos 500); end_ms = some (pos 5000); window_minutes = none }

filter_usage_by_window_example :
    Perm
      (map core
        (collect_usage_details host (some (filter_usage_by_window host payload half_hours))))
      (map rebuilt_core (filter (in_window half_hours) rows))
    × ((d : DetailRecord) → (in_window half_hours d ≡ true) ↔ LiesIn half_hours d)
unfolding collect_usage_details parse
filter_usage_by_window_example = filter_usage_by_window_lem host payload half_hours refl refl

kept_by_filter :
    map
      (λ d. d.timestamp)
      (collect_usage_details host (some (filter_usage_by_window host payload half_hours)))
    ≡ "1000" ∷ []
unfolding collect_usage_details parse filter_usage_by_window
kept_by_filter = refl

abbrev now_given : WindowOptions
now_given = record {
  now_ms = TimeValue.ms_value (num (pos 20_000_000));
  custom_start = TimeValue.undefined;
  custom_end = TimeValue.undefined;
}

resolve_usage_filter_window_example :
    IsProper (resolve_usage_filter_window host (pos 7) (λ t. t) (some payload) hours_4 now_given)
resolve_usage_filter_window_example =
    resolve_usage_filter_window-IsProper host (pos 7) (λ t. t) (λ t. omega int_laws) (some payload)
      hours_4 now_given
