-- ===== src/Page/Dates.antt =====
-- The custom range of web/src/pages/UsagePage.tsx: `toDateInputValue`, `parseCustomDateBoundary`,
-- `buildCustomDateRangeQuery`, `buildDefaultCustomRange`, `loadCustomTimeRange`, `getEventQueryWindow`
-- and the effect that sets the hint and the error.
pub mod Text
pub mod Laws
use daili_usage_keeper_north.Base.{
  ℕ, zero, suc, ◌+◌, ◌-◌, ◌*◌, String, Bool, true, false, not, ◌&&◌, ◌||◌, Option, none, some,
  if◌then◌else◌, leb, ◌==◌, ◌<>◌, decimal, pad, is_blank, ℤ, pos, ◌-ℤ◌, ltb_ℤ, or_else, is_some,
}
use daili_usage_keeper_north.Page.Dates.Text.{match_date}

-- A year, a month from 1 and a day of the month.
abbrev pub Day : Type 0
Day = ℕ × ℕ × ℕ

-- Days and times in the local time zone, as the browser has them.
pub record Calendar : Type 0 where
  -- `getFullYear()`, `getMonth() + 1` and `getDate()` of `new Date(ms)`; `none` for an invalid date.
  pub day_of : ℤ → Option Day
  -- `new Date(year, month - 1, day, …).getTime()` at 0:00, or at 23:59:59.999 if the flag is set;
  -- `none` is NaN.
  pub boundary : Day → Bool → Option ℤ

pub record CustomRange : Type 0 where
  pub start : String
  pub stop : String

pub record Query : Type 0 where
  pub valid : Bool
  pub start : Option String
  pub stop : Option String

abbrev pub same_day : Day → Day → Bool
same_day (y, m, d) (y', m', d') = y == y' && m == m' && d == d'

abbrev pub no_query : Query
no_query = record { valid = false; start = none; stop = none }

unfoldable pub to_date_input_value : Calendar → ℤ → String
to_date_input_value calendar timestamp = elim (calendar.day_of timestamp) [
  | none ↦ ""
  | some (y, m, d) ↦ decimal y <> ("-" <> (pad m <> ("-" <> pad d)))
]

-- The date must give back the day that was read: 31 February is refused.
abbrev pub checked : Calendar → Day → ℤ → Option ℤ
checked calendar day t = elim (calendar.day_of t) [
  | none ↦ none
  | some found ↦ if same_day found day then some t else none
]

unfoldable pub parse_custom_date_boundary : Calendar → String → Bool → Option ℤ
unfolding match_date
parse_custom_date_boundary calendar value end_of_day =
    if is_blank value then none else elim (match_date value) [
      | none ↦ none
      | some day ↦ elim (calendar.boundary day end_of_day) [
        | none ↦ none
        | some t ↦ checked calendar day t
      ]
    ]

unfoldable pub parse_custom_date_start : Calendar → String → Option ℤ
unfolding parse_custom_date_boundary
parse_custom_date_start calendar value = parse_custom_date_boundary calendar value false

unfoldable pub parse_custom_date_end : Calendar → String → Option ℤ
unfolding parse_custom_date_boundary
parse_custom_date_end calendar value = parse_custom_date_boundary calendar value true

-- `startMs === undefined || endMs === undefined || startMs > endMs`
abbrev pub is_reversed : Option ℤ → Option ℤ → Bool
is_reversed none end_ms = true
is_reversed (some a) none = true
is_reversed (some a) (some b) = ltb_ℤ b a

unfoldable pub refuses : Calendar → CustomRange → Bool
unfolding parse_custom_date_start parse_custom_date_end
refuses calendar range =
    is_reversed (parse_custom_date_start calendar range.start)
      (parse_custom_date_end calendar range.stop)

abbrev pub is_incomplete : CustomRange → Bool
is_incomplete range = is_blank range.start || is_blank range.stop

unfoldable pub build_custom_date_range_query : Calendar → CustomRange → Query
unfolding refuses
build_custom_date_range_query calendar range =
    if is_incomplete range || refuses calendar range
    then no_query
    else record { valid = true; start = some range.start; stop = some range.stop }

-- Eight hours, in milliseconds.
abbrev pub default_window_ms : ℕ
default_window_ms = 28_800_000

unfoldable pub build_default_custom_range : Calendar → ℤ → CustomRange
unfolding to_date_input_value
build_default_custom_range calendar anchor = record {
  start = to_date_input_value calendar (anchor -ℤ pos default_window_ms);
  stop = to_date_input_value calendar anchor;
}

-- What `localStorage` holds under the key: nothing (or it cannot be read, or its text is empty or no
-- JSON), or the two properties of the value, each `none` if it is no string.
pub data Saved : Type 0 where
  unreadable : Saved
  parsed : Option String → Option String → Saved

unfoldable pub load_custom_time_range : Calendar → ℤ → Saved → CustomRange
unfolding refuses build_default_custom_range
load_custom_time_range calendar now unreadable = build_default_custom_range calendar now
load_custom_time_range calendar now (parsed start stop) =
    let range : CustomRange = record { start = or_else start ""; stop = or_else stop "" } in
    if is_incomplete range
    then range
    else if refuses calendar range
    then build_default_custom_range calendar now
    else range

-- `is_custom` is `timeRange === 'custom'`.
unfoldable pub get_event_query_window : Calendar → Bool → CustomRange → Query
unfolding refuses build_custom_date_range_query
get_event_query_window calendar is_custom range =
    if not is_custom
    then record { valid = true; start = none; stop = none }
    else if is_incomplete range
    then no_query
    else if refuses calendar range
    then no_query
    else build_custom_date_range_query calendar range

-- The hint and the error that are shown: `custom_incomplete` and `custom_invalid` are translations.
unfoldable pub range_messages : Calendar → String → String → Bool → CustomRange → String × String
unfolding refuses
range_messages calendar custom_incomplete custom_invalid is_custom range =
    if not is_custom
    then ("", "")
    else if is_incomplete range
    then (custom_incomplete, "")
    else if refuses calendar range
    then ("", custom_invalid)
    else ("", "")
