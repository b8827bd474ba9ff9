-- ===== src/Page/Session.antt =====
-- What web/src/pages/UsagePage.tsx keeps of its controls in `localStorage`: the initial states, the
-- changes, and the effects that store each of the four. `JSON` is the browser's, so that lines and dates
-- are stored as the values that their texts stand for.
pub mod Laws
pub mod Tests
use daili_usage_keeper_north.Base.{
  ℕ, String, Bool, true, false, Option, none, some, List, map, ℤ, if◌then◌else◌, is_blank, not,
  ◌&&◌, ◌||◌,
}
use daili_usage_keeper_north.Usage.Window.{TimeRange, custom}
use daili_usage_keeper_north.Page.Dates.{
  Calendar, CustomRange, Saved, unreadable, parsed, load_custom_time_range,
  build_default_custom_range, is_incomplete,
}
use daili_usage_keeper_north.Page.Controls.{
  Items, UsageTab, overview, load_chart_lines, load_time_range, load_usage_tab, text_of_range,
  text_of_tab, handle_chart_lines_change, sanitize_overview_chart_lines_when_ready,
}

-- The four keys; nothing is stored where an entry is `none` or `unreadable`.
pub record PageStorage : Type 0 where
  -- Whether `setItem` works; it may throw, which is ignored.
  pub is_writable : Bool
  pub stored_chart_lines : Option Items
  pub stored_time_range : Option String
  pub stored_custom_range : Saved
  pub stored_tab : Option String

pub record PageControls : Type 0 where
  pub active_tab : UsageTab
  pub chart_lines : List String
  pub time_range : TimeRange
  pub custom_time_range : CustomRange

-- The initial states of the page; `now` is `Date.now()`.
unfoldable pub load_controls : Calendar → ℤ → PageStorage → PageControls
unfolding load_usage_tab load_chart_lines load_time_range load_custom_time_range
load_controls calendar now s = record {
  active_tab = load_usage_tab s.stored_tab;
  chart_lines = load_chart_lines s.stored_chart_lines;
  time_range = load_time_range s.stored_time_range;
  custom_time_range = load_custom_time_range calendar now s.stored_custom_range;
}

abbrev pub stored_dates : CustomRange → Saved
stored_dates range = parsed (some range.start) (some range.stop)

unfoldable pub store_chart_lines : List String → PageStorage → PageStorage
store_chart_lines lines s =
    if s.is_writable then record s { stored_chart_lines = some (some (map some lines)) } else s

unfoldable pub store_time_range : TimeRange → PageStorage → PageStorage
store_time_range range s =
    if s.is_writable then record s { stored_time_range = some (text_of_range range) } else s

unfoldable pub store_custom_range : CustomRange → PageStorage → PageStorage
store_custom_range range s =
    if s.is_writable then record s { stored_custom_range = stored_dates range } else s

unfoldable pub store_tab : UsageTab → PageStorage → PageStorage
store_tab tab s = if s.is_writable then record s { stored_tab = some (text_of_tab tab) } else s

-- The four effects in their order, as after the first render. An effect whose state has not changed does
-- not run again; it would store what it has stored before.
unfoldable pub store_controls : PageControls → PageStorage → PageStorage
unfolding store_chart_lines store_time_range store_custom_range store_tab
store_controls c s = store_tab c.active_tab (
    store_custom_range c.custom_time_range
      (store_time_range c.time_range (store_chart_lines c.chart_lines s)))

-- What the page does to its controls.
unfoldable pub choose_tab : UsageTab → PageControls → PageControls
choose_tab tab c = record c { active_tab = tab }

unfoldable pub choose_range : TimeRange → PageControls → PageControls
choose_range range c = record c { time_range = range }

unfoldable pub choose_start : String → PageControls → PageControls
choose_start start c = record c { custom_time_range = record c.custom_time_range { start = start } }

unfoldable pub choose_end : String → PageControls → PageControls
choose_end stop c = record c { custom_time_range = record c.custom_time_range { stop = stop } }

unfoldable pub change_lines : List String → PageControls → PageControls
unfolding handle_chart_lines_change
change_lines lines c = record c { chart_lines = handle_chart_lines_change lines }

abbrev pub is_overview_tab : UsageTab → Bool
is_overview_tab overview = true
is_overview_tab _ = false

-- The effect on the overview; `ready` says that the models' names are known.
unfoldable pub sanitize_lines : List String → Bool → PageControls → PageControls
unfolding sanitize_overview_chart_lines_when_ready
sanitize_lines names ready c =
    if is_overview_tab c.active_tab
    then record c {
      chart_lines = sanitize_overview_chart_lines_when_ready c.chart_lines names ready;
    }
    else c

abbrev pub is_custom_range : TimeRange → Bool
is_custom_range custom = true
is_custom_range _ = false

-- The effect that fills in the dates of a custom range; `anchor` is the last refresh, or else the clock.
unfoldable pub fill_custom_range : Calendar → ℤ → PageControls → PageControls
unfolding build_default_custom_range
fill_custom_range calendar anchor c =
    if is_custom_range c.time_range && is_incomplete c.custom_time_range
    then record c { custom_time_range = build_default_custom_range calendar anchor }
    else c
