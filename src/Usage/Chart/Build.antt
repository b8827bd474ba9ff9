-- ===== src/Usage/Chart/Build.antt =====
-- `buildChartData` of web/src/utils/usage.ts: the chart of a payload without rows, from its time series,
-- and the choice between the charts.
use daili_usage_keeper_north.Base.{
  String, not, Option, none, some, List, [], ◌∷◌, ◌++◌, map, Dict, lookup, keys, ℤ, pos, JsNumber,
  num, to_number_of_optional, if◌then◌else◌, or_else, str_eq, filter, is_empty, sort, length,
}
use daili_usage_keeper_north.Host.{Host}
use daili_usage_keeper_north.Usage.{Payload, format_hour_bucket_key}
use daili_usage_keeper_north.Usage.Details.{collect_usage_details}
use daili_usage_keeper_north.Usage.Chart.{
  Period, hour, day, Metric, requests, tokens, ChartDataset, ChartData, dataset_of, includes,
  lines_of, build_hourly_window, resolve_hourly_chart_end_ms, format_hour_label, hour_chart,
  day_chart,
}

-- An entry of `model_series`, which some payloads have in place of rows.
pub record Series : Type 0 where
  pub requests_by_day : Option (Dict JsNumber)
  pub requests_by_hour : Option (Dict JsNumber)
  pub tokens_by_day : Option (Dict JsNumber)
  pub tokens_by_hour : Option (Dict JsNumber)

abbrev pub choose {ℓ} : {A : Type ℓ} → Period → Metric → (A × A) × (A × A) → A
choose hour requests ((rh, th), (rd, td)) = rh
choose hour tokens ((rh, th), (rd, td)) = th
choose day requests ((rh, th), (rd, td)) = rd
choose day tokens ((rh, th), (rd, td)) = td

-- The values of a map at some keys, `toNumber(map?.[key])`.
abbrev pub values_at : Option (Dict JsNumber) → List String → List ℤ
values_at none ks = map (λ k. pos 0) ks
values_at (some m) ks = map (λ k. to_number_of_optional (lookup k m)) ks

abbrev pub maps_of :
    Payload
    → (Option (Dict JsNumber) × Option (Dict JsNumber))
      × (Option (Dict JsNumber) × Option (Dict JsNumber))
maps_of u = ((u.requests_by_hour, u.tokens_by_hour), (u.requests_by_day, u.tokens_by_day))

abbrev pub series_maps :
    Series
    → (Option (Dict JsNumber) × Option (Dict JsNumber))
      × (Option (Dict JsNumber) × Option (Dict JsNumber))
series_maps u = ((u.requests_by_hour, u.tokens_by_hour), (u.requests_by_day, u.tokens_by_day))

-- The datasets of the named lines, whose colours go on from those before.
unfoldable pub series_datasets :
    Dict Series
    → Period
    → Metric
    → List String
    → List ChartDataset
    → List String
    → List ChartDataset
unfolding lookup to_number_of_optional
series_datasets series period metric ks done [] = done
series_datasets series period metric ks done (line ∷ lines) =
    let chosen : Option (Dict JsNumber) = elim (lookup line series) [
      | none ↦ none
      | some s ↦ choose period metric (series_maps s)
    ] in
    series_datasets series period metric ks
      (elim chosen [
        | none ↦ done
        | some m ↦ done ++ dataset_of line (values_at (some m) ks) (length done) ∷ []
      ])
      lines

abbrev pub last_of : String → List String → String
last_of d [] = d
last_of d (x ∷ xs) = last_of x xs

module _ (h : Host) (clock : ℤ) where
  -- The keys of a chart without rows: those that are there by day, and the hours of the window by hour.
  unfoldable pub aggregate_keys :
      Period → Option JsNumber → Option JsNumber → List String → List String
  unfolding build_hourly_window format_hour_bucket_key
  aggregate_keys day hours end_ms raw = raw
  aggregate_keys hour hours none raw =
      map (format_hour_bucket_key h)
        (build_hourly_window clock hours
          (elim (h.parse_date (last_of "" raw)) [ none ↦ none | some t ↦ some (num t) ])).hours
  aggregate_keys hour hours (some end_ms) raw =
      map (format_hour_bucket_key h) (build_hourly_window clock hours (some end_ms)).hours

  abbrev pub label_of_key : Period → String → String
  label_of_key hour k = format_hour_label h k
  label_of_key day k = k

  unfoldable pub aggregate_chart :
      Payload
      → Dict Series
      → Period
      → Metric
      → List String
      → Option JsNumber
      → Option JsNumber
      → ChartData
  unfolding aggregate_keys series_datasets sort to_number_of_optional
  aggregate_chart usage series period metric chart_lines hours end_ms =
      let lines = lines_of chart_lines in
      let bucket_map = choose period metric (maps_of usage) in
      let raw = sort h.collates (keys (or_else bucket_map [])) in
      if is_empty raw
      then record { labels = []; datasets = [] }
      else let ks = aggregate_keys period hours end_ms raw in
        let whole =
          if includes lines "all" then dataset_of "All" (values_at bucket_map ks) 0 ∷ [] else [] in
        record {
          labels = map (label_of_key period) ks;
          datasets =
              series_datasets series period metric ks whole
                (filter (λ l. not (str_eq l "all")) lines);
        }

  unfoldable pub build_chart_data :
      Payload
      → Dict Series
      → Period
      → Metric
      → List String
      → Option JsNumber
      → Option JsNumber
      → ChartData
  unfolding aggregate_chart hour_chart day_chart collect_usage_details resolve_hourly_chart_end_ms
      build_hourly_window
  build_chart_data usage series period metric chart_lines hours end_ms =
      let details = collect_usage_details h (some usage) in
      if is_empty details
      then aggregate_chart usage series period metric chart_lines hours end_ms
      else elim period [
        | hour ↦
            hour_chart h (lines_of chart_lines) metric
              (build_hourly_window clock hours (resolve_hourly_chart_end_ms details end_ms)) details
        | day ↦ day_chart h (lines_of chart_lines) metric details
      ]
