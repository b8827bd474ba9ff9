-- ===== src/Page/Controls.antt =====
-- The controls of web/src/pages/UsagePage.tsx: the lines of the charts, the range and the tab with what
-- is stored of them, the filters of the events, and the hours that the overview's charts show.
pub mod Filters
pub mod Laws
pub mod Lines
use daili_usage_keeper_north.Base.{
  ℕ, ◌+◌, ◌-◌, ◌/◌, min, max, String, Bool, true, false, not, ◌&&◌, ◌||◌, Option, none, some, List,
  [], ◌∷◌, map, if◌then◌else◌, filter, any, take, is_empty, is_blank, trim, str_eq, is_some,
  or_else, ℤ, pos, negsuc, ◌+ℤ◌, ◌-ℤ◌,
}
use daili_usage_keeper_north.Host.{Host}
use daili_usage_keeper_north.Usage.Window.{
  TimeRange, all, hours_4, hours_8, hours_12, hours_24, today, days_7, custom, Minutes, of_ms,
  whole, UsageFilterWindow, preset_window_hours,
}
use daili_usage_keeper_north.Usage.Chart.{includes}

abbrev pub default_chart_lines : List String
default_chart_lines = "all" ∷ []

-- `list.length ? list : ['all']`
abbrev pub or_default : List String → List String
or_default [] = default_chart_lines
or_default (l ∷ ls) = l ∷ ls

-- A value out of JSON: no array, or its items, `none` for one that is no string.
abbrev pub Items : Type 0
Items = Option (List (Option String))

-- The items that are strings, trimmed, without the empty ones.
unfoldable pub stored_lines : List (Option String) → List String
stored_lines [] = []
stored_lines (none ∷ items) = stored_lines items
stored_lines (some s ∷ items) =
    if is_blank (trim s) then stored_lines items else trim s ∷ stored_lines items

unfoldable pub normalize_chart_lines : ℕ → Items → List String
unfolding stored_lines
normalize_chart_lines max_lines none = default_chart_lines
normalize_chart_lines max_lines (some items) = or_default (take max_lines (stored_lines items))

abbrev pub max_chart_lines : ℕ
max_chart_lines = 9

-- `saved` is the value that the stored text parses to; `none` if nothing is stored, or it cannot be
-- read or parsed.
unfoldable pub load_chart_lines : Option Items → List String
unfolding normalize_chart_lines
load_chart_lines none = default_chart_lines
load_chart_lines (some saved) = normalize_chart_lines max_chart_lines saved

-- `handleChartLinesChange`
unfoldable pub handle_chart_lines_change : List String → List String
unfolding normalize_chart_lines
handle_chart_lines_change lines = normalize_chart_lines max_chart_lines (some (map some lines))

-- `new Set(modelNames.map((name) => name.trim()).filter(Boolean))`
abbrev pub valid_models : List String → List String
valid_models model_names = filter (λ n. not (is_blank n)) (map trim model_names)

abbrev pub is_valid_line : List String → String → Bool
is_valid_line model_names line = str_eq line "all" || includes (valid_models model_names) line

unfoldable pub sanitize_chart_lines : List String → List String → List String
sanitize_chart_lines chart_lines model_names =
    or_default (filter (is_valid_line model_names) (or_default chart_lines))

unfoldable pub sanitize_overview_chart_lines_when_ready :
    List String → List String → Bool → List String
unfolding sanitize_chart_lines
sanitize_overview_chart_lines_when_ready chart_lines model_names ready =
    if ready then sanitize_chart_lines chart_lines model_names else chart_lines

-- The text of a range, which is the value itself in the code.
abbrev pub text_of_range : TimeRange → String
text_of_range all = "all"
text_of_range hours_4 = "4h"
text_of_range hours_8 = "8h"
text_of_range hours_12 = "12h"
text_of_range hours_24 = "24h"
text_of_range today = "today"
text_of_range days_7 = "7d"
text_of_range custom = "custom"

abbrev pub all_ranges : List TimeRange
all_ranges = hours_4 ∷ hours_8 ∷ hours_12 ∷ hours_24 ∷ today ∷ days_7 ∷ all ∷ custom ∷ []

-- The first value of a list that has the text.
unfoldable pub find_text {ℓ} : {A : Type ℓ} → (A → String) → String → List A → Option A
find_text text s [] = none
find_text text s (a ∷ rest) = if str_eq s (text a) then some a else find_text text s rest

-- `isUsageTimeRange(value)`, with the range that the value is.
unfoldable pub usage_time_range : String → Option TimeRange
unfolding find_text
usage_time_range value = find_text text_of_range value all_ranges

-- `!isUsageTimeRange(raw) || raw === '24h' ? DEFAULT_TIME_RANGE : raw`
abbrev pub selectable : Option TimeRange → TimeRange
selectable none = all
selectable (some hours_24) = all
selectable (some range) = range

-- `raw` is `localStorage.getItem(…)`; `none` also where it throws or there is no storage.
unfoldable pub load_time_range : Option String → TimeRange
unfolding usage_time_range
load_time_range none = all
load_time_range (some raw) = selectable (usage_time_range raw)

pub data UsageTab : Type 0 where
  overview analysis events credentials pricing : UsageTab

abbrev pub text_of_tab : UsageTab → String
text_of_tab overview = "overview"
text_of_tab analysis = "analysis"
text_of_tab events = "events"
text_of_tab credentials = "credentials"
text_of_tab pricing = "pricing"

abbrev pub usage_tab_options : List UsageTab
usage_tab_options = overview ∷ analysis ∷ events ∷ credentials ∷ pricing ∷ []

unfoldable pub load_usage_tab : Option String → UsageTab
unfolding find_text
load_usage_tab none = overview
load_usage_tab (some raw) = or_else (find_text text_of_tab raw usage_tab_options) overview

-- What a select offers: the value and its translated label.
abbrev pub usage_tab_label_key : UsageTab → String
usage_tab_label_key overview = "usage_stats.tab_overview"
usage_tab_label_key analysis = "usage_stats.tab_analysis"
usage_tab_label_key events = "usage_stats.tab_events"
usage_tab_label_key credentials = "usage_stats.tab_credentials"
usage_tab_label_key pricing = "usage_stats.tab_pricing"

unfoldable pub get_usage_tab_options : (String → String) → List (UsageTab × String)
get_usage_tab_options translate =
    map (λ tab. (tab, translate (usage_tab_label_key tab))) usage_tab_options

-- `TIME_RANGE_OPTIONS`
abbrev pub time_range_options : List (TimeRange × String)
time_range_options =
    (all, "usage_stats.range_all")
    ∷ (hours_4, "usage_stats.range_4h")
    ∷ (hours_8, "usage_stats.range_8h")
    ∷ (hours_12, "usage_stats.range_12h")
    ∷ (today, "usage_stats.range_today")
    ∷ (days_7, "usage_stats.range_7d")
    ∷ (custom, "usage_stats.range_custom")
    ∷ []

unfoldable pub get_time_range_options : (String → String) → List (TimeRange × String)
get_time_range_options translate = map (λ o. (o.0, translate o.1)) time_range_options

-- `Math.ceil(windowMinutes / 60)`, never below 0: a window is not negative where it is bounded.
abbrev pub hours_of : Minutes → ℕ
hours_of (of_ms (pos ms)) = (ms + 3_599_999) / 3_600_000
hours_of (of_ms (negsuc n)) = 0
hours_of (whole n) = (n + 59) / 60

-- `Math.min(HOUR_WINDOW_BY_TIME_RANGE[timeRange], 24)`
unfoldable pub get_overview_hour_window_hours : TimeRange → UsageFilterWindow → ℕ
get_overview_hour_window_hours all w = 24
get_overview_hour_window_hours today w = 24
get_overview_hour_window_hours hours_4 w = min 4 24
get_overview_hour_window_hours hours_8 w = min 8 24
get_overview_hour_window_hours hours_12 w = min 12 24
get_overview_hour_window_hours hours_24 w = min 24 24
get_overview_hour_window_hours days_7 w = min 168 24
get_overview_hour_window_hours custom w = elim w.window_minutes [
  | none ↦ 24
  | some minutes ↦ min (max (hours_of minutes) 1) 24
]

-- `filterWindow.startMs` of today, with the last millisecond of its day.
abbrev pub end_of_today : TimeRange → Option ℤ → Option ℤ
end_of_today today (some start) = some (start +ℤ pos 86_400_000 -ℤ pos 1)
end_of_today _ _ = none

unfoldable pub get_overview_chart_end_ms : TimeRange → UsageFilterWindow → ℤ → Option ℤ → ℤ
get_overview_chart_end_ms range w fallback_end_ms resolved_range_end_ms =
    or_else resolved_range_end_ms
      (or_else (end_of_today range w.start_ms) (or_else w.end_ms fallback_end_ms))

unfoldable pub to_timestamp_ms : Host → Option String → Option ℤ
to_timestamp_ms host none = none
to_timestamp_ms host (some value) = if is_blank value then none else host.parse_date value

abbrev pub get_overview_display_loading : Bool → Bool → Bool
get_overview_display_loading loading has_usage = loading && not has_usage
