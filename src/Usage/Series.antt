-- ===== src/Usage/Series.antt =====
-- `buildTokenBreakdownSeries` and `buildCostSeries` of web/src/utils/usage.ts, with the four functions
-- that call them.
pub mod Laws
use daili_usage_keeper_north.Base.{
  ℕ, zero, suc, ◌/◌, String, Bool, true, false, Option, none, some, List, [], ◌∷◌, map, foldl, Dict,
  lookup, update, keys, ℤ, pos, negsuc, ◌+ℤ◌, ◌-ℤ◌, JsNumber, to_number, if◌then◌else◌, or_else,
  str_eq, any, filter, is_empty, is_blank, sort, length, ltb,
}
use daili_usage_keeper_north.Host.{Host}
use daili_usage_keeper_north.Usage.{
  Payload, DetailRecord, cached_of, format_hour_bucket_key, start_of_day_key,
}
use daili_usage_keeper_north.Usage.Details.{collect_usage_details}
use daili_usage_keeper_north.Usage.Stats.{Money, ModelPrice, calculate_cost}
use daili_usage_keeper_north.Usage.Chart.{
  HourlyWindow, hour_ms, build_hourly_window, resolve_hourly_chart_end_ms, bucket_of,
  format_hour_label, day_keys,
}

pub record ByCategory : Type 0 where
  pub input : List ℤ
  pub output : List ℤ
  pub cached : List ℤ
  pub reasoning : List ℤ

pub record TokenSeries : Type 0 where
  pub labels : List String
  pub data_by_category : ByCategory

pub record CostSeries (C : Type 0) : Type 0 where
  pub labels : List String
  pub costs : List C
  pub has_data : Bool

-- `xs[i] = f(xs[i])`
abbrev pub modify_at {ℓ} : {A : Type ℓ} → ℕ → (A → A) → List A → List A
modify_at i f [] = []
modify_at zero f (x ∷ xs) = f x ∷ xs
modify_at (suc i) f (x ∷ xs) = x ∷ modify_at i f xs

-- `Math.floor((bucketStart - earliestTime) / hourMs)`, if it is in range.
abbrev pub bucket_index : HourlyWindow → ℤ → Option ℕ
bucket_index window start = elim (start -ℤ window.earliest_time) [
  | pos n ↦ if ltb (n / hour_ms) (length window.hours) then some (n / hour_ms) else none
  | negsuc n ↦ none
]

abbrev pub input_of : DetailRecord → ℤ
input_of d = to_number d.tokens.input_tokens

abbrev pub output_of : DetailRecord → ℤ
output_of d = to_number d.tokens.output_tokens

abbrev pub cached_of_row : DetailRecord → ℤ
cached_of_row d = cached_of d.tokens

abbrev pub reasoning_of : DetailRecord → ℤ
reasoning_of d = to_number d.tokens.reasoning_tokens

abbrev pub sum : List ℤ → ℤ
sum values = foldl (λ total value. total +ℤ value) (pos 0) values

abbrev pub add_at : ℕ → ℤ → List ℤ → List ℤ
add_at i n xs = modify_at i (λ x. x +ℤ n) xs

abbrev pub zeros_for : List ℤ → List ℤ
zeros_for hours = map (λ t. pos 0) hours

module _ (h : Host) where
  -- The index of a row's bucket, if the row lies in the window.
  unfoldable pub index_of : HourlyWindow → DetailRecord → Option ℕ
  unfolding bucket_of
  index_of window d = elim (bucket_of h window d) [
    | none ↦ none
    | some start ↦ bucket_index window start
  ]

  unfoldable pub add_tokens : HourlyWindow → ByCategory → DetailRecord → ByCategory
  unfolding index_of to_number
  add_tokens window acc d = elim (index_of window d) [
    | none ↦ acc
    | some i ↦ record {
      input = add_at i (input_of d) acc.input;
      output = add_at i (output_of d) acc.output;
      cached = add_at i (cached_of_row d) acc.cached;
      reasoning = add_at i (reasoning_of d) acc.reasoning;
    }
  ]

  unfoldable pub hour_labels : HourlyWindow → List String
  unfolding format_hour_label format_hour_bucket_key
  hour_labels window = map (λ t. format_hour_label h (format_hour_bucket_key h t)) window.hours

  unfoldable pub hourly_tokens : HourlyWindow → List DetailRecord → TokenSeries
  unfolding add_tokens hour_labels
  hourly_tokens window details = record {
    labels = hour_labels window;
    data_by_category =
        foldl (add_tokens window)
          (record {
            input = zeros_for window.hours;
            output = zeros_for window.hours;
            cached = zeros_for window.hours;
            reasoning = zeros_for window.hours;
          })
          details;
  }

  unfoldable pub sum_of_day : (DetailRecord → ℤ) → List DetailRecord → String → ℤ
  unfolding start_of_day_key
  sum_of_day f details key =
      sum (map f (filter (λ d. str_eq (start_of_day_key h d.timestamp) key) details))

  unfoldable pub daily_tokens : List DetailRecord → TokenSeries
  unfolding sum_of_day day_keys to_number
  daily_tokens details =
      let ks = day_keys h details in
      record {
        labels = ks;
        data_by_category = record {
          input = map (sum_of_day input_of details) ks;
          output = map (sum_of_day output_of details) ks;
          cached = map (sum_of_day cached_of_row details) ks;
          reasoning = map (sum_of_day reasoning_of details) ks;
        };
      }

  abbrev pub no_series : TokenSeries
  no_series = record {
    labels = [];
    data_by_category = record { input = []; output = []; cached = []; reasoning = [] };
  }

  unfoldable pub build_hourly_token_breakdown :
      ℤ → Option Payload → Option JsNumber → Option JsNumber → TokenSeries
  unfolding hourly_tokens collect_usage_details build_hourly_window resolve_hourly_chart_end_ms
  build_hourly_token_breakdown clock usage hours end_ms =
      let details = collect_usage_details h usage in
      if is_empty details
      then no_series
      else hourly_tokens
          (build_hourly_window clock hours (resolve_hourly_chart_end_ms details end_ms)) details

  unfoldable pub build_daily_token_breakdown : Option Payload → TokenSeries
  unfolding daily_tokens collect_usage_details
  build_daily_token_breakdown usage =
      let details = collect_usage_details h usage in
      if is_empty details then no_series else daily_tokens details

  module _ {C : Type 0} (m : Money C) (prices : Dict (ModelPrice C)) where
    unfoldable pub add_hour_cost : HourlyWindow → List C × Bool → DetailRecord → List C × Bool
    unfolding index_of calculate_cost
    add_hour_cost window (costs, has_data) d = elim (index_of window d) [
      | none ↦ (costs, has_data)
      | some i ↦
          let cost = calculate_cost m prices d in
          if m.is_positive cost
          then (modify_at i (λ c. m.plus c cost) costs, true)
          else (costs, has_data)
    ]

    unfoldable pub hourly_costs : HourlyWindow → List DetailRecord → CostSeries C
    unfolding add_hour_cost hour_labels
    hourly_costs window details =
        let done =
          foldl (add_hour_cost window) (map (λ t. m.nothing) window.hours, false) details in
        record { labels = hour_labels window; costs = done.0; has_data = done.1 }

    unfoldable pub add_day_cost : Dict C → DetailRecord → Dict C
    unfolding start_of_day_key calculate_cost update
    add_day_cost grouped d =
        let key = start_of_day_key h d.timestamp in
        if is_blank key
        then grouped
        else update key (λ given. m.plus (or_else given m.nothing) (calculate_cost m prices d))
            grouped

    unfoldable pub daily_costs : List DetailRecord → CostSeries C
    unfolding add_day_cost lookup sort
    daily_costs details =
        let grouped = foldl add_day_cost [] details in
        let ks = sort h.collates (keys grouped) in
        let costs = map (λ k. or_else (lookup k grouped) m.nothing) ks in
        record { labels = ks; costs = costs; has_data = any m.is_positive costs }

    abbrev pub no_costs : CostSeries C
    no_costs = record { labels = []; costs = []; has_data = false }

    unfoldable pub build_hourly_cost_series :
        ℤ → Option Payload → Option JsNumber → Option JsNumber → CostSeries C
    unfolding hourly_costs collect_usage_details build_hourly_window resolve_hourly_chart_end_ms
    build_hourly_cost_series clock usage hours end_ms =
        let details = collect_usage_details h usage in
        if is_empty details
        then no_costs
        else hourly_costs
            (build_hourly_window clock hours (resolve_hourly_chart_end_ms details end_ms)) details

    unfoldable pub build_daily_cost_series : Option Payload → CostSeries C
    unfolding daily_costs collect_usage_details
    build_daily_cost_series usage =
        let details = collect_usage_details h usage in
        if is_empty details then no_costs else daily_costs details
