-- ===== src/Overview/CostTrend.antt =====
-- `buildOverviewCostTrendSeries` of web/src/components/usage/CostTrendChart.tsx. An end, or a label, that
-- is no date makes `toISOString` throw, which is `none`.
use Prim.Native.Char.{code}
use daili_usage_keeper_north.Base.{
  ◌-◌, ◌*◌, String, Bool, true, false, not, Option, none, some, List, [], ◌∷◌, map, Dict, lookup,
  update, keys, ℤ, pos, ◌-ℤ◌, leb_ℤ, ◌&&◌, JsNumber, num, or_else, sort, filter, any, group,
  if◌then◌else◌, ◌<>◌, pad, decimal, ◌==◌,
}
use daili_usage_keeper_north.Host.{Host}
use daili_usage_keeper_north.Usage.{format_local_day_key}
use daili_usage_keeper_north.Usage.Stats.{Money}
use daili_usage_keeper_north.Usage.Chart.{
  Period, hour, day, hour_ms, bucket_count, start_of_hour, hours_from, normalize_hour_window,
}
use daili_usage_keeper_north.Overview.{OverviewSeries, Overview}

pub record CostTrendSeries (C : Type 0) : Type 0 where
  pub labels : List String
  pub values : List C
  pub has_data : Bool
  pub cost_available : Bool

abbrev pub same_time : ℤ → ℤ → Bool
same_time a b = leb_ℤ a b && leb_ℤ b a

-- `Number.isFinite(endMs) && endMs`
abbrev pub given_end : Option JsNumber → Option ℤ
given_end (some (num t)) = if same_time t (pos 0) then none else some t
given_end _ = none

-- `label.includes('T')`
abbrev pub has_hour : String → Bool
has_hour String.[] = false
has_hour (String.◌∷◌ c s) = let rest = has_hour s in if code c == 84 then true else rest

-- The hours of the chart that ends in the hour of the anchor.
unfoldable pub cost_hours : Option JsNumber → ℤ → List ℤ
unfolding start_of_hour hours_from normalize_hour_window
cost_hours hours anchor =
    hours_from (start_of_hour anchor -ℤ pos ((bucket_count hours - 1) * hour_ms))
      (bucket_count hours)

module _ (h : Host) where
  unfoldable pub format_clock_label : String → String
  unfolding pad decimal
  format_clock_label key = elim (h.parse_date key) [
    | none ↦ key
    | some ms ↦ let (hours, minutes) = h.local_clock ms in pad hours <> ":" <> pad minutes
  ]

  unfoldable pub day_key_of_label : String → String
  unfolding format_local_day_key
  day_key_of_label key = elim (h.parse_date key) [
    | none ↦ key
    | some ms ↦ format_local_day_key h ms
  ]

  -- `none` is NaN.
  abbrev pub to_utc_hour_ms : String → Option ℤ
  to_utc_hour_ms label = elim (h.parse_date label) [
    | none ↦ none
    | some ms ↦ some (start_of_hour ms)
  ]

  abbrev pub is_hour_of : ℤ → String → Bool
  is_hour_of bucket label = elim (to_utc_hour_ms label) [
    | none ↦ false
    | some t ↦ same_time t bucket
  ]

  module _ {C : Type 0} where
    -- `Object.entries(series).filter(…).sort(…)`, with the labels of hours, or of days.
    unfoldable pub entries_of : Bool → Dict C → Dict C
    unfolding sort
    entries_of hourly series =
        sort (λ a b. h.collates a.0 b.0)
          (filter (λ e. if hourly then has_hour e.0 else not (has_hour e.0)) series)

    -- `valueByHour.get(bucketMs)`: the last entry of the hour is the one that the map keeps.
    unfoldable pub value_by_hour : Dict C → ℤ → Option C
    value_by_hour [] bucket = none
    value_by_hour ((label, v) ∷ entries) bucket =
        let rest = value_by_hour entries bucket in
        elim rest [ some w ↦ some w | none ↦ if is_hour_of bucket label then some v else none ]

    abbrev pub last_label : String → Dict C → String
    last_label label [] = label
    last_label label ((l, v) ∷ entries) = last_label l entries

    -- `now` is `Date.now()`.
    unfoldable pub anchor_ms : ℤ → Option JsNumber → Dict C → Option ℤ
    anchor_ms now end_ms entries = elim (given_end end_ms) [
      | some t ↦ some t
      | none ↦ elim entries [ [] ↦ some now | e ∷ es ↦ h.parse_date (last_label e.0 es) ]
    ]

module _ (h : Host) {C : Type 0} (money : Money C) where
  unfoldable pub hour_values : Dict C → List ℤ → List C
  unfolding value_by_hour
  hour_values entries hours = map (λ t. or_else (value_by_hour h entries t) money.nothing) hours

  unfoldable pub by_hour :
      ℤ → Option JsNumber → Option JsNumber → Dict C → Bool → Option (CostTrendSeries C)
  unfolding hour_values cost_hours anchor_ms format_clock_label
  by_hour now hours end_ms entries available = elim (anchor_ms h now end_ms entries) [
    | none ↦ none
    | some anchor ↦
        let buckets = cost_hours hours anchor in
        let values = hour_values entries buckets in
        some (record {
          labels = map (λ t. format_clock_label h (h.iso_string t)) buckets;
          values = values;
          has_data = any money.is_positive values;
          cost_available = available;
        })
  ]

  -- `grouped`: the entries of days as they are, or else those of hours summed up by day.
  unfoldable pub grouped_days : Dict C → Dict C → Dict C
  unfolding group day_key_of_label update
  grouped_days [] hourly =
      group (λ e sum. money.plus (or_else sum money.nothing) e.1) (λ e. day_key_of_label h e.0) []
        hourly
  grouped_days (e ∷ daily) hourly = group (λ d old. d.1) (λ d. d.0) [] (e ∷ daily)

  unfoldable pub by_day : Dict C → Dict C → Bool → CostTrendSeries C
  unfolding grouped_days sort lookup
  by_day daily hourly available =
      let grouped = grouped_days daily hourly in
      let labels = sort h.collates (keys grouped) in
      let values = map (λ l. or_else (lookup l grouped) money.nothing) labels in
      record {
        labels = labels;
        values = values;
        has_data = any money.is_positive values;
        cost_available = available;
      }

  abbrev pub selected_series : Period → Overview C → Option (OverviewSeries C)
  selected_series hour usage = elim usage.hourly_series [ none ↦ usage.series | some s ↦ some s ]
  selected_series day usage = elim usage.daily_series [ none ↦ usage.series | some s ↦ some s ]

  abbrev pub cost_series : Option (OverviewSeries C) → Dict C
  cost_series none = []
  cost_series (some s) = or_else s.cost []

  abbrev pub is_cost_available : Overview C → Bool
  is_cost_available usage = elim usage.summary [
    | none ↦ false
    | some s ↦ or_else s.cost_available false
  ]

  abbrev pub no_cost_trend : CostTrendSeries C
  no_cost_trend = record { labels = []; values = []; has_data = false; cost_available = false }

  unfoldable pub build_overview_cost_trend_series :
      ℤ
      → Option (Overview C)
      → Period
      → Option JsNumber
      → Option JsNumber
      → Option (CostTrendSeries C)
  unfolding by_hour by_day entries_of
  build_overview_cost_trend_series now none period hours end_ms = some no_cost_trend
  build_overview_cost_trend_series now (some usage) hour hours end_ms =
      by_hour now hours end_ms (entries_of h true (cost_series (selected_series hour usage)))
        (is_cost_available usage)
  build_overview_cost_trend_series now (some usage) day hours end_ms =
      let series = cost_series (selected_series day usage) in
      some (by_day (entries_of h false series) (entries_of h true series) (is_cost_available usage))
