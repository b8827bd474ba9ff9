-- ===== src/Page/Controls/Laws.antt =====
-- The range and the tab come back from where they are stored, and the hours of the overview's charts
-- are in bounds.
use daili_usage_keeper_north.Base.{
  ℕ, zero, suc, ◌≤◌, ◌≡◌, refl, String, Bool, true, Option, none, some, any, str_eq, arith, pos,
  num,
}
use daili_usage_keeper_north.Usage.Window.{
  TimeRange, all, hours_4, hours_8, hours_12, hours_24, today, days_7, custom, UsageFilterWindow,
}
use daili_usage_keeper_north.Usage.Chart.{normalize_hour_window}
use daili_usage_keeper_north.Page.Controls.{
  text_of_range, find_text, usage_time_range, selectable, load_time_range, text_of_tab, UsageTab,
  overview, analysis, events, credentials, pricing, load_usage_tab, get_time_range_options,
  get_overview_hour_window_hours,
}

-- A range that the select offers.
abbrev pub is_offered : (String → String) → TimeRange → Bool
is_offered translate range =
    any (λ o. str_eq (text_of_range o.0) (text_of_range range)) (get_time_range_options translate)

selectable-offered :
    (translate : String → String) (found : Option TimeRange)
    → is_offered translate (selectable found) ≡ true
unfolding get_time_range_options
selectable-offered translate none = refl
selectable-offered translate (some all) = refl
selectable-offered translate (some hours_4) = refl
selectable-offered translate (some hours_8) = refl
selectable-offered translate (some hours_12) = refl
selectable-offered translate (some hours_24) = refl
selectable-offered translate (some today) = refl
selectable-offered translate (some days_7) = refl
selectable-offered translate (some custom) = refl

load_time_range-offered :
    (translate : String → String) (raw : Option String)
    → is_offered translate (load_time_range raw) ≡ true
unfolding load_time_range
load_time_range-offered translate none = selectable-offered translate none
load_time_range-offered translate (some raw) = selectable-offered translate (usage_time_range raw)

stored_range :
    (range : TimeRange) → load_time_range (some (text_of_range range)) ≡ selectable (some range)
unfolding load_time_range usage_time_range find_text
stored_range all = refl
stored_range hours_4 = refl
stored_range hours_8 = refl
stored_range hours_12 = refl
stored_range hours_24 = refl
stored_range today = refl
stored_range days_7 = refl
stored_range custom = refl

offered_range :
    (translate : String → String) (range : TimeRange)
    → is_offered translate range ≡ true
    → selectable (some range) ≡ range
unfolding get_time_range_options
offered_range translate all h = refl
offered_range translate hours_4 h = refl
offered_range translate hours_8 h = refl
offered_range translate hours_12 h = refl
offered_range translate hours_24 h = ground arith
offered_range translate today h = refl
offered_range translate days_7 h = refl
offered_range translate custom h = refl

stored_tab : (tab : UsageTab) → load_usage_tab (some (text_of_tab tab)) ≡ tab
unfolding load_usage_tab find_text
stored_tab overview = refl
stored_tab analysis = refl
stored_tab events = refl
stored_tab credentials = refl
stored_tab pricing = refl

-- Whatever text is stored, the range that the page starts with is one that its select offers; an offered
-- range and a tab that were stored are loaded again, and 24 hours, which is no longer offered, becomes all.
pub stored_choices :
    (translate : String → String) (raw : Option String) (range : TimeRange) (tab : UsageTab)
    → (is_offered translate (load_time_range raw) ≡ true)
      × (load_time_range (some (text_of_range range)) ≡ selectable (some range))
      × (is_offered translate range ≡ true → selectable (some range) ≡ range)
      × (load_usage_tab (some (text_of_tab tab)) ≡ tab)
stored_choices translate raw range tab = (
  load_time_range-offered translate raw,
  stored_range range,
  offered_range translate range,
  stored_tab tab,
)

normal_hours : (n : ℕ) → 1 ≤ n → n ≤ 24 → normalize_hour_window (some (num (pos n))) ≡ n
unfolding normalize_hour_window
normal_hours zero h k = omega arith
normal_hours (suc n) h k = omega arith

hours_in_bounds :
    (range : TimeRange) (w : UsageFilterWindow)
    → (1 ≤ get_overview_hour_window_hours range w) × (get_overview_hour_window_hours range w ≤ 24)
unfolding get_overview_hour_window_hours
hours_in_bounds custom w = ground arith
hours_in_bounds all w = omega arith
hours_in_bounds hours_4 w = omega arith
hours_in_bounds hours_8 w = omega arith
hours_in_bounds hours_12 w = omega arith
hours_in_bounds hours_24 w = omega arith
hours_in_bounds today w = omega arith
hours_in_bounds days_7 w = omega arith

-- The overview's charts show 1 to 24 hours, and the window of the chart takes that number as it is.
pub hour_window_lem :
    (range : TimeRange) (w : UsageFilterWindow)
    → (1 ≤ get_overview_hour_window_hours range w)
      × (get_overview_hour_window_hours range w ≤ 24)
      × (normalize_hour_window (some (num (pos (get_overview_hour_window_hours range w))))
          ≡ get_overview_hour_window_hours range w)
hour_window_lem range w =
    let h = hours_in_bounds range w in
    (h.0, h.1, normal_hours (get_overview_hour_window_hours range w) h.0 h.1)
