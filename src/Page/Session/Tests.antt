-- ===== src/Page/Session/Tests.antt =====
-- The page loaded, left with other dates and another tab, and loaded again.
use daili_usage_keeper_north.Base.{◌≡◌, refl, true, none, some, pos}
use daili_usage_keeper_north.Usage.Window.{custom}
use daili_usage_keeper_north.Page.Dates.{Calendar, unreadable}
use daili_usage_keeper_north.Page.Controls.{UsageTab, events}
use daili_usage_keeper_north.Page.Session.{
  PageStorage, PageControls, load_controls, store_controls, choose_tab, choose_range, choose_start,
}
use daili_usage_keeper_north.Page.Session.Laws.{
  Reach, loaded, changed, tab_chosen, range_chosen, start_chosen, settled_dates,
  load_controls-store_controls,
}

-- A calendar that refuses every date.
abbrev no_dates : Calendar
no_dates = record { day_of = λ t. none; boundary = λ day stop. none }

abbrev empty_storage : PageStorage
empty_storage = record {
  is_writable = true;
  stored_chart_lines = none;
  stored_time_range = some "24h";
  stored_custom_range = unreadable;
  stored_tab = none;
}

abbrev first_controls : PageControls
first_controls = load_controls no_dates (pos 7) empty_storage

abbrev left_controls : PageControls
left_controls = choose_start "2026-01-02" (choose_range custom (choose_tab events first_controls))

left_controls-Reach : Reach left_controls
unfolding daili_usage_keeper_north.Page.Controls.get_time_range_options
left_controls-Reach =
    changed
      (changed (changed (loaded no_dates (pos 7) empty_storage) (tab_chosen events first_controls))
        (range_chosen custom (choose_tab events first_controls) refl))
      (start_chosen "2026-01-02" (choose_range custom (choose_tab events first_controls)))

load_controls-store_controls_example :
    load_controls no_dates (pos 9) (store_controls left_controls empty_storage)
    ≡ record left_controls {
      custom_time_range = settled_dates no_dates (pos 9) left_controls.custom_time_range;
    }
load_controls-store_controls_example =
    load_controls-store_controls no_dates (pos 9) left_controls empty_storage left_controls-Reach
      refl
