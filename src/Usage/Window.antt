-- ===== src/Usage/Window.antt =====
-- The time window of a range and the rows in it: `resolveUsageFilterWindow`, `filterUsageByWindow` and
-- `filterUsageByTimeRange` of web/src/utils/usage.ts.
pub mod Laws
use daili_usage_keeper_north.Base.{
  ℕ, ◌*◌, String, Bool, true, false, Option, none, some, List, [], ◌∷◌, ℤ, pos, ◌-ℤ◌, leb_ℤ, ltb_ℤ,
  min_ℤ, max_ℤ, JsNumber, num, filter, if◌then◌else◌, or_else, ◌&&◌, ◌||◌, is_empty, not,
}
use daili_usage_keeper_north.Host.{Host}
use daili_usage_keeper_north.Usage.{Payload, DetailRecord, time_of}
use daili_usage_keeper_north.Usage.Details.{collect_usage_details}
use daili_usage_keeper_north.Usage.Rebuild.{build_usage_from_details, to_payload}

pub data TimeRange : Type 0 where
  all hours_4 hours_8 hours_12 hours_24 today days_7 custom : TimeRange

-- A length of time in minutes, kept as milliseconds over 60000: `(endMs - startMs) / 60000`.
pub data Minutes : Type 0 where
  of_ms : ℤ → Minutes
  whole : ℕ → Minutes

pub record UsageFilterWindow : Type 0 where
  pub start_ms : Option ℤ
  pub end_ms : Option ℤ
  pub window_minutes : Option Minutes

abbrev pub no_window : UsageFilterWindow
no_window = record { start_ms = none; end_ms = none; window_minutes = none }

-- `Math.max(ms / 60000, 1)`
unfoldable pub at_least_a_minute : ℤ → Minutes
at_least_a_minute ms = if leb_ℤ (pos 60_000) ms then of_ms ms else whole 1

-- A value given as a number or as a date string; `none` where it is undefined.
pub data TimeValue : Type 0 where
  ms_value : JsNumber → TimeValue
  date_value : String → TimeValue
  undefined : TimeValue

-- `Number.isFinite(timestamp) && timestamp > 0 ? timestamp : null`
unfoldable pub positive_time : JsNumber → Option ℤ
positive_time (num t) = if ltb_ℤ (pos 0) t then some t else none
positive_time _ = none

-- `{ earliestMs, latestMs }`
abbrev pub Bounds : Type 0
Bounds = ℤ × ℤ

-- One round of the loop over the rows. The bounds start at +∞ and -∞, here `none`.
unfoldable pub widen : Option Bounds → DetailRecord → Option Bounds
widen bounds d = if leb_ℤ (time_of d) (pos 0) then bounds else elim bounds [
  | none ↦ some (time_of d, time_of d)
  | some (earliest, latest) ↦ some (min_ℤ earliest (time_of d), max_ℤ latest (time_of d))
]

unfoldable pub bounds_from : Option Bounds → List DetailRecord → Option Bounds
unfolding widen
bounds_from bounds [] = bounds
bounds_from bounds (d ∷ ds) = bounds_from (widen bounds d) ds

unfoldable pub get_detail_timestamp_bounds : List DetailRecord → Option Bounds
unfolding bounds_from
get_detail_timestamp_bounds details = bounds_from none details

-- `PRESET_WINDOW_HOURS`
abbrev pub preset_window_hours : TimeRange → Option ℕ
preset_window_hours hours_4 = some 4
preset_window_hours hours_8 = some 8
preset_window_hours hours_12 = some 12
preset_window_hours hours_24 = some 24
preset_window_hours days_7 = some 168
preset_window_hours _ = none

abbrev pub window_all : Option Bounds → UsageFilterWindow
window_all none = no_window
window_all (some (earliest, latest)) = record {
  start_ms = some earliest;
  end_ms = some latest;
  window_minutes = some (at_least_a_minute (latest -ℤ earliest));
}

abbrev pub window_between : ℤ → ℤ → UsageFilterWindow
window_between start stop = record {
  start_ms = some start;
  end_ms = some stop;
  window_minutes = some (at_least_a_minute (stop -ℤ start));
}

-- `startMs === null || endMs === null || startMs > endMs`
abbrev pub window_custom : Option ℤ → Option ℤ → UsageFilterWindow
window_custom (some start) (some stop) =
    if ltb_ℤ stop start then no_window else window_between start stop
window_custom _ _ = no_window

abbrev pub window_preset : ℤ → ℕ → UsageFilterWindow
window_preset now hours = record {
  start_ms = some (now -ℤ pos (hours * 60 * 60 * 1000));
  end_ms = some now;
  window_minutes = some (whole (hours * 60));
}

pub record WindowOptions : Type 0 where
  pub now_ms : TimeValue
  pub custom_start : TimeValue
  pub custom_end : TimeValue

module _ (h : Host) where
  unfoldable pub to_valid_timestamp : TimeValue → Option ℤ
  unfolding positive_time
  to_valid_timestamp (ms_value n) = positive_time n
  to_valid_timestamp (date_value s) = elim (h.parse_date s) [
    | none ↦ none
    | some t ↦ positive_time (num t)
  ]
  to_valid_timestamp undefined = elim (h.parse_date "") [
    | none ↦ none
    | some t ↦ positive_time (num t)
  ]

-- `clock` is `Date.now()`, and `midnight` is `setHours(0, 0, 0, 0)` in the local time zone.
module _ (h : Host) (clock : ℤ) (midnight : ℤ → ℤ) where
  unfoldable pub window_of_range : Option Bounds → TimeRange → WindowOptions → UsageFilterWindow
  unfolding to_valid_timestamp at_least_a_minute
  window_of_range bounds all options = window_all bounds
  window_of_range bounds custom options =
      window_custom (to_valid_timestamp h options.custom_start)
        (to_valid_timestamp h options.custom_end)
  window_of_range bounds today options =
      let now = or_else (to_valid_timestamp h options.now_ms) clock in
      window_between (midnight now) now
  window_of_range bounds range options =
      window_preset (or_else (to_valid_timestamp h options.now_ms) clock)
        (or_else (preset_window_hours range) 0)

  unfoldable pub resolve_usage_filter_window :
      Option Payload → TimeRange → WindowOptions → UsageFilterWindow
  unfolding window_of_range get_detail_timestamp_bounds collect_usage_details
  resolve_usage_filter_window usage range options =
      window_of_range (get_detail_timestamp_bounds (collect_usage_details h usage)) range options

-- Whether a row's time lies in the window.
unfoldable pub in_window : UsageFilterWindow → DetailRecord → Bool
in_window window d =
    not (leb_ℤ (time_of d) (pos 0))
    && not (elim window.start_ms [ none ↦ false | some start ↦ ltb_ℤ (time_of d) start ])
    && not (elim window.end_ms [ none ↦ false | some stop ↦ ltb_ℤ stop (time_of d) ])

abbrev pub is_open : UsageFilterWindow → Bool
is_open window = elim window.start_ms [
  | none ↦ elim window.end_ms [ none ↦ true | some _ ↦ false ]
  | some _ ↦ false
]

module _ (h : Host) where
  unfoldable pub filter_usage_by_window : Payload → UsageFilterWindow → Payload
  unfolding in_window collect_usage_details build_usage_from_details
  filter_usage_by_window usage window =
      let details = collect_usage_details h (some usage) in
      if is_empty details || is_open window
      then usage
      else to_payload (build_usage_from_details h (filter (in_window window) details))

module _ (h : Host) (clock : ℤ) (midnight : ℤ → ℤ) where
  unfoldable pub filter_usage_by_time_range : Payload → TimeRange → WindowOptions → Payload
  unfolding resolve_usage_filter_window filter_usage_by_window
  filter_usage_by_time_range usage range options =
      filter_usage_by_window h usage
        (resolve_usage_filter_window h clock midnight (some usage) range options)
