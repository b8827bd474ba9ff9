-- ===== src/Overview/Tokens.antt =====
-- `buildTokenBreakdownChartSeries` of web/src/components/usage/TokenBreakdownChart.tsx. A label that is
-- no date makes `toISOString` throw, which is `none`.
use daili_usage_keeper_north.Base.{
  ◌-◌, ◌*◌, String, Option, none, some, List, [], ◌∷◌, map, Dict, lookup, ℤ, pos, ◌-ℤ◌, JsNumber,
  sort,
}
use daili_usage_keeper_north.Host.{Host}
use daili_usage_keeper_north.Usage.{format_hour_bucket_key}
use daili_usage_keeper_north.Usage.Window.{positive_time}
use daili_usage_keeper_north.Usage.Chart.{
  Period, hour, day, hour_ms, normalize_hour_window, start_of_hour, hours_from, valid_time,
}
use daili_usage_keeper_north.Overview.{OverviewSeries, Overview, value_at, sorted_labels}
use daili_usage_keeper_north.Overview.CostTrend.{format_clock_label}

pub record TokenChartSeries : Type 0 where
  pub labels : List String
  pub input : List ℤ
  pub output : List ℤ
  pub cached : List ℤ
  pub reasoning : List ℤ

abbrev pub last_of_labels : String → List String → String
last_of_labels label [] = label
last_of_labels label (l ∷ labels) = last_of_labels l labels

-- The hours of the chart that ends in the hour of `requestedEndMs`.
unfoldable pub token_hours : Option JsNumber → ℤ → List ℤ
unfolding start_of_hour hours_from normalize_hour_window
token_hours hours end =
    hours_from (start_of_hour end -ℤ pos ((normalize_hour_window hours - 1) * hour_ms))
      (normalize_hour_window hours)

module _ (h : Host) where
  -- `requestedEndMs`; the last label is read only if no end is given.
  abbrev pub requested_end_ms : Option JsNumber → String → Option ℤ
  requested_end_ms end_ms latest = elim (valid_time end_ms) [
    | some t ↦ some t
    | none ↦ h.parse_date latest
  ]

  unfoldable pub hourly_labels :
      Option JsNumber → Option JsNumber → List String → Option (List String)
  unfolding token_hours format_hour_bucket_key positive_time
  hourly_labels hours end_ms [] = some []
  hourly_labels hours end_ms (l ∷ labels) =
      elim (requested_end_ms end_ms (last_of_labels l labels)) [
        | none ↦ none
        | some end ↦ some (map (format_hour_bucket_key h) (token_hours hours end))
      ]

  abbrev pub format_chart_label : Period → String → String
  format_chart_label hour label = format_clock_label h label
  format_chart_label day label = label

  abbrev pub labels_of :
      Period → Option JsNumber → Option JsNumber → List String → Option (List String)
  labels_of hour hours end_ms sorted = hourly_labels hours end_ms sorted
  labels_of day hours end_ms sorted = some sorted

  module _ {C : Type 0} where
    abbrev pub token_source : Option (Overview C) → Period → Option (OverviewSeries C)
    token_source none period = none
    token_source (some usage) hour = elim usage.hourly_series [
      | none ↦ usage.series
      | some s ↦ some s
    ]
    token_source (some usage) day = elim usage.daily_series [
      | none ↦ usage.series
      | some s ↦ some s
    ]

    -- `source?.[field]`
    abbrev pub field_of :
        (OverviewSeries C → Option (Dict ℤ)) → Option (OverviewSeries C) → Option (Dict ℤ)
    field_of field none = none
    field_of field (some s) = field s

    abbrev pub chart_of : Period → Option (OverviewSeries C) → List String → TokenChartSeries
    chart_of period source labels = record {
      labels = map (format_chart_label period) labels;
      input = map (value_at (pos 0) (field_of (λ s. s.input_tokens) source)) labels;
      output = map (value_at (pos 0) (field_of (λ s. s.output_tokens) source)) labels;
      cached = map (value_at (pos 0) (field_of (λ s. s.cached_tokens) source)) labels;
      reasoning = map (value_at (pos 0) (field_of (λ s. s.reasoning_tokens) source)) labels;
    }

    unfoldable pub build_token_breakdown_chart_series :
        Option (Overview C) → Period → Option JsNumber → Option JsNumber → Option TokenChartSeries
    unfolding hourly_labels format_clock_label sort lookup
    build_token_breakdown_chart_series usage period hours end_ms =
        let source = token_source usage period in
        elim (labels_of period hours end_ms
          (sorted_labels h (field_of (λ s. s.input_tokens) source))) [
            | none ↦ none
            | some labels ↦ some (chart_of period source labels)
          ]
