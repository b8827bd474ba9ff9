-- ===== src/Usage/Chart.antt =====
-- `buildHourlyWindow`, `resolveHourlyChartEndMs` and `buildChartData` of web/src/utils/usage.ts. Of a
-- dataset the label, the data and the colours are kept; the colours of the points are that of the
-- border, and `fill` and `tension` are constants.
pub mod Laws
pub mod Twice
pub mod Build
use daili_usage_keeper_north.Base.{
  ℕ, zero, suc, ◌+◌, ◌-◌, ◌*◌, ◌/◌, ◌%◌, min, max, String, Bool, true, false, ◌||◌, ◌&&◌, not,
  Option, none, some, List, [], ◌∷◌, ◌++◌, map, foldl, Dict, lookup, update, keys, ℤ, pos, negsuc,
  ◌+ℤ◌, ◌-ℤ◌, ltb_ℤ, leb_ℤ, JsNumber, num, to_number_of_optional, if◌then◌else◌, leb, or_else,
  str_eq, any, filter, is_empty, is_blank, sort, length, get_elem?, ◌<>◌, pad, decimal,
}
use daili_usage_keeper_north.Host.{Host}
use daili_usage_keeper_north.Usage.{
  Payload, DetailRecord, time_of, tokens_of, format_hour_bucket_key, start_of_day_key,
}
use daili_usage_keeper_north.Usage.Details.{collect_usage_details}
use daili_usage_keeper_north.Usage.Window.{get_detail_timestamp_bounds, positive_time}

abbrev pub hour_ms : ℕ
hour_ms = 3_600_000

-- `lines.includes(name)`
abbrev pub includes : List String → String → Bool
includes lines name = any (λ l. str_eq l name) lines

unfoldable pub normalize_hour_window : Option JsNumber → ℕ
normalize_hour_window (some (num (pos (suc n)))) = min (max (suc n) 1) 24
normalize_hour_window _ = 24

-- `setUTCMinutes(0, 0, 0)`: the hour is rounded down, before 1970 too.
unfoldable pub start_of_hour : ℤ → ℤ
start_of_hour (pos n) = pos (n / hour_ms * hour_ms)
start_of_hour (negsuc n) = negsuc ((n / hour_ms + 1) * hour_ms - 1)

-- `Array.from({ length: n }, (_, index) => first + index * hourMs)`
unfoldable pub hours_from : ℤ → ℕ → List ℤ
hours_from first zero = []
hours_from first (suc n) = first ∷ hours_from (first +ℤ pos hour_ms) n

abbrev pub valid_time : Option JsNumber → Option ℤ
valid_time none = none
valid_time (some n) = positive_time n

-- The hours of a chart are kept beside their labels.
pub record HourlyWindow : Type 0 where
  pub earliest_time : ℤ
  pub last_bucket_time : ℤ
  pub hours : List ℤ

abbrev pub bucket_count : Option JsNumber → ℕ
bucket_count hours =
    if leb 24 (normalize_hour_window hours) then 24 else normalize_hour_window hours + 1

-- `clock` is `Date.now()`.
unfoldable pub build_hourly_window : ℤ → Option JsNumber → Option JsNumber → HourlyWindow
unfolding normalize_hour_window start_of_hour hours_from positive_time
build_hourly_window clock hours end_ms =
    let count = bucket_count hours in
    let current_hour = start_of_hour (or_else (valid_time end_ms) clock) in
    let earliest = current_hour -ℤ pos ((count - 1) * hour_ms) in
    record {
      earliest_time = earliest;
      last_bucket_time = earliest +ℤ pos ((count - 1) * hour_ms);
      hours = hours_from earliest count;
    }

unfoldable pub resolve_hourly_chart_end_ms : List DetailRecord → Option JsNumber → Option JsNumber
unfolding get_detail_timestamp_bounds positive_time
resolve_hourly_chart_end_ms details end_ms = elim (valid_time end_ms) [
  | some t ↦ some (num t)
  | none ↦ elim (get_detail_timestamp_bounds details) [
    | none ↦ none
    | some (earliest, latest) ↦ some (num latest)
  ]
]

abbrev pub chart_colors : List String
chart_colors =
    "#8b8680" ∷ "#8b5cf6" ∷ "#22c55e" ∷ "#f97316" ∷ "#f59e0b" ∷ "#06b6d4" ∷ "#ef4444" ∷ "#6366f1"
    ∷ "#ec4899" ∷ []

abbrev pub color_at : ℕ → String
color_at i = or_else (get_elem? chart_colors (i % 9)) ""

pub record ChartDataset : Type 0 where
  pub label : String
  pub values : List ℤ
  pub border_color : String
  pub background_color : String

pub record ChartData : Type 0 where
  pub labels : List String
  pub datasets : List ChartDataset

abbrev pub dataset_of : String → List ℤ → ℕ → ChartDataset
dataset_of label values i = record {
  label = label;
  values = values;
  border_color = color_at i;
  background_color = color_at i <> "22";
}

pub data Period : Type 0 where
  hour day : Period

pub data Metric : Type 0 where
  requests tokens : Metric

abbrev pub lines_of : List String → List String
lines_of [] = "all" ∷ []
lines_of (l ∷ ls) = l ∷ ls

-- `bucketsByLine`
abbrev pub Lines : Type 0
Lines = Dict (Dict ℤ)

-- `line.set(key, (line.get(key) ?? 0) + value)` on the line of that name.
unfoldable pub add_to_line : String → String → ℤ → Lines → Lines
unfolding update
add_to_line line key value m =
    update line (λ given. update key (λ v. or_else v (pos 0) +ℤ value) (or_else given [])) m

abbrev pub line_key_of : List String → DetailRecord → String
line_key_of lines d =
    if includes lines (or_else d.model_name "")
    then or_else d.model_name "all"
    else if includes lines (or_else d.api_name "")
    then or_else d.api_name "all"
    else "all"

abbrev pub value_of : Metric → DetailRecord → ℤ
value_of requests d = pos 1
value_of tokens d = tokens_of d

-- What a row adds to its own line, and to the line of all.
unfoldable pub add_row : List String → Metric → String → DetailRecord → Lines → Lines
unfolding add_to_line
add_row lines metric key d m =
    let line_key = line_key_of lines d in
    if not (includes lines "all") && str_eq line_key "all"
    then m
    else let own = add_to_line line_key key (value_of metric d) m in
      if includes lines "all" then add_to_line "all" key (value_of metric d) own else own

unfoldable pub datasets_from : ℕ → List String → Lines → List ChartDataset
unfolding lookup
datasets_from i ks [] = []
datasets_from i ks ((label, line) ∷ lines) =
    dataset_of (if str_eq label "all" then "All" else label)
      (map (λ k. or_else (lookup k line) (pos 0)) ks) i
    ∷ datasets_from (suc i) ks lines

abbrev pub add_distinct : List String → String → List String
add_distinct ks k = if includes ks k then ks else ks ++ k ∷ []

module _ (h : Host) where
  unfoldable pub format_hour_label : String → String
  unfolding pad decimal
  format_hour_label key = elim (h.parse_date key) [
    | none ↦ key
    | some ms ↦
        let (year, month, date) = h.local_day ms in
        let (hours, minutes) = h.local_clock ms in
        pad month <> "-" <> pad date <> " " <> pad hours <> ":" <> pad minutes
  ]

  -- The time of a row's bucket, if the window holds it.
  unfoldable pub bucket_of : HourlyWindow → DetailRecord → Option ℤ
  unfolding start_of_hour
  bucket_of window d =
      if leb_ℤ (time_of d) (pos 0)
      then none
      else let start = start_of_hour (time_of d) in
        if ltb_ℤ start window.earliest_time || ltb_ℤ window.last_bucket_time start
        then none
        else some start

  unfoldable pub add_hour_row : List String → Metric → HourlyWindow → Lines → DetailRecord → Lines
  unfolding bucket_of add_row
  add_hour_row lines metric window m d = elim (bucket_of window d) [
    | none ↦ m
    | some start ↦ add_row lines metric (h.iso_string start) d m
  ]

  unfoldable pub hour_chart : List String → Metric → HourlyWindow → List DetailRecord → ChartData
  unfolding add_hour_row datasets_from format_hour_label format_hour_bucket_key
  hour_chart lines metric window details =
      let bucket_keys = map (format_hour_bucket_key h) window.hours in
      record {
        labels = map (format_hour_label) bucket_keys;
        datasets =
            datasets_from 0 bucket_keys (foldl (add_hour_row lines metric window) [] details);
      }

  unfoldable pub add_day_row : List String → Metric → Lines → DetailRecord → Lines
  unfolding start_of_day_key add_row
  add_day_row lines metric m d =
      let key = start_of_day_key h d.timestamp in
      if is_blank key then m else add_row lines metric key d m

  unfoldable pub day_keys : List DetailRecord → List String
  unfolding start_of_day_key sort
  day_keys details = sort h.collates (
      foldl add_distinct []
        (filter (λ k. not (is_blank k)) (map (λ d. start_of_day_key h d.timestamp) details)))

  unfoldable pub day_chart : List String → Metric → List DetailRecord → ChartData
  unfolding day_keys add_day_row datasets_from
  day_chart lines metric details =
      let bucket_keys = day_keys details in
      record {
        labels = bucket_keys;
        datasets = datasets_from 0 bucket_keys (foldl (add_day_row lines metric) [] details);
      }
