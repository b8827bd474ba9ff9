-- ===== src/Page/Session/Laws.antt =====
-- The stored controls come back when the page is loaded again.
use daili_usage_keeper_north.Base.{
  String, Bool, true, Option, none, some, List, [], map, filter, ◌≡◌, refl, ◌∙◌, All-filter_kept,
  length-filter-add, ℤ, arith, Bool-cases, inl, inr, if◌then◌else◌, ◌&&◌,
}
use daili_usage_keeper_north.Usage.Window.{TimeRange}
use daili_usage_keeper_north.Page.Dates.{
  Calendar, CustomRange, load_custom_time_range, build_default_custom_range, is_incomplete, refuses,
}
use daili_usage_keeper_north.Page.Controls.{
  UsageTab, overview, selectable, load_time_range, text_of_range, load_chart_lines, text_of_tab,
  load_usage_tab, is_valid_line, sanitize_chart_lines, or_default,
  sanitize_overview_chart_lines_when_ready,
}
use daili_usage_keeper_north.Page.Controls.Laws.{is_offered, stored_choices}
use daili_usage_keeper_north.Page.Controls.Lines.{
  IsStorable, IsLine, chart_lines_stored, normalize-kept, or_default-kept, or_default-IsStorable,
}
use daili_usage_keeper_north.Page.Session.{
  PageStorage, PageControls, load_controls, store_controls, choose_tab, choose_range, choose_start,
  choose_end, change_lines, sanitize_lines, fill_custom_range, store_chart_lines, store_time_range,
  store_custom_range, store_tab, stored_dates, is_overview_tab, is_custom_range,
}

-- What becomes of the controls; a range is chosen among those that the select offers.
pub data Change : PageControls → PageControls → Type 0 where
  tab_chosen : (tab : UsageTab) (c : PageControls) → Change c (choose_tab tab c)
  range_chosen :
      (range : TimeRange) (c : PageControls)
      → is_offered (λ t. t) range ≡ true
      → Change c (choose_range range c)
  start_chosen : (start : String) (c : PageControls) → Change c (choose_start start c)
  end_chosen : (stop : String) (c : PageControls) → Change c (choose_end stop c)
  lines_changed : (lines : List String) (c : PageControls) → Change c (change_lines lines c)
  lines_sanitized :
      (names : List String) (ready : Bool) (c : PageControls)
      → Change c (sanitize_lines names ready c)
  range_filled :
      (calendar : Calendar) (anchor : ℤ) (c : PageControls)
      → Change c (fill_custom_range calendar anchor c)

pub data Reach : PageControls → Type 0 where
  loaded : (calendar : Calendar) (now : ℤ) (s : PageStorage) → Reach (load_controls calendar now s)
  changed : {a b : PageControls} → Reach a → Change a b → Reach b

-- Controls of which the lines and the range are loaded as they were stored.
record IsKept (c : PageControls) : Type 0 where
  lines : IsStorable c.chart_lines
  range : selectable (some c.time_range) ≡ c.time_range

sanitize-IsStorable :
    (lines names : List String) → IsStorable lines → IsStorable (sanitize_chart_lines lines names)
unfolding sanitize_chart_lines
sanitize-IsStorable lines names h =
    let same : or_default lines ≡ lines = or_default-kept lines h.some_line in
    let p = is_valid_line names in
    rw same (
      or_default-IsStorable (filter p lines) (omega (arith, length-filter-add p lines, h.few))
        (All-filter_kept IsLine p lines h.proper))

selectable_twice :
    (raw : Option String) → selectable (some (load_time_range raw)) ≡ load_time_range raw
selectable_twice raw =
    let (offered, _, _, _) = stored_choices (λ t. t) raw TimeRange.all overview in
    let (_, _, kept, _) = stored_choices (λ t. t) raw (load_time_range raw) overview in kept offered

sanitize_lines-IsKept :
    (names : List String) (ready : Bool) (c : PageControls)
    → IsKept c
    → IsKept (sanitize_lines names ready c)
unfolding sanitize_lines sanitize_overview_chart_lines_when_ready
sanitize_lines-IsKept names ready c h =
    let sanitized = sanitize-IsStorable c.chart_lines names h.lines in
    elim (Bool-cases (is_overview_tab c.active_tab)) [
      | inl e ↦ rw e (elim (Bool-cases ready) [
        | inl k ↦ rw k (record { lines = sanitized; range = h.range })
        | inr k ↦ rw k (record { lines = h.lines; range = h.range })
      ])
      | inr e ↦ rw e h
    ]

fill_custom_range-IsKept :
    (calendar : Calendar) (anchor : ℤ) (c : PageControls)
    → IsKept c
    → IsKept (fill_custom_range calendar anchor c)
unfolding fill_custom_range
fill_custom_range-IsKept calendar anchor c h =
    elim (Bool-cases (is_custom_range c.time_range && is_incomplete c.custom_time_range)) [
      | inl e ↦ rw e (record { lines = h.lines; range = h.range })
      | inr e ↦ rw e h
    ]

Change-IsKept : {a b : PageControls} → Change a b → IsKept a → IsKept b
unfolding choose_tab choose_range choose_start choose_end change_lines
Change-IsKept (tab_chosen tab c) h = record { lines = h.lines; range = h.range }
Change-IsKept (range_chosen range c offered) h =
    let (_, _, kept, _) = stored_choices (λ t. t) none range overview in
    record { lines = h.lines; range = kept offered }
Change-IsKept (start_chosen start c) h = record { lines = h.lines; range = h.range }
Change-IsKept (end_chosen stop c) h = record { lines = h.lines; range = h.range }
Change-IsKept (lines_changed lines c) h = record {
  lines = (chart_lines_stored lines none).0;
  range = h.range;
}
Change-IsKept (lines_sanitized names ready c) h = sanitize_lines-IsKept names ready c h
Change-IsKept (range_filled calendar anchor c) h = fill_custom_range-IsKept calendar anchor c h

Reach-IsKept : {c : PageControls} → Reach c → IsKept c
unfolding load_controls
Reach-IsKept (loaded calendar now s) = record {
  lines = (chart_lines_stored [] s.stored_chart_lines).1;
  range = selectable_twice s.stored_time_range;
}
Reach-IsKept (changed r c) = Change-IsKept c (Reach-IsKept r)

stored_controls :
    (c : PageControls) (s : PageStorage)
    → s.is_writable ≡ true
    → store_controls c s ≡ record {
      is_writable = true;
      stored_chart_lines = some (some (map some c.chart_lines));
      stored_time_range = some (text_of_range c.time_range);
      stored_custom_range = stored_dates c.custom_time_range;
      stored_tab = some (text_of_tab c.active_tab);
    }
unfolding store_controls store_chart_lines store_time_range store_custom_range store_tab
stored_controls c s w = rw w refl

load_controls-parts :
    (calendar : Calendar) (now : ℤ) (s : PageStorage) (c : PageControls)
    → load_usage_tab s.stored_tab ≡ c.active_tab
    → load_chart_lines s.stored_chart_lines ≡ c.chart_lines
    → load_time_range s.stored_time_range ≡ c.time_range
    → load_custom_time_range calendar now s.stored_custom_range ≡ c.custom_time_range
    → load_controls calendar now s ≡ c
unfolding load_controls
load_controls-parts calendar now s c tab lines range dates = cc

-- The dates that the page starts with, of those that are stored.
abbrev pub settled_dates : Calendar → ℤ → CustomRange → CustomRange
settled_dates calendar now range =
    if is_incomplete range
    then range
    else if refuses calendar range
    then build_default_custom_range calendar now
    else range

stored_lines_lem :
    (lines : List String)
    → IsStorable lines
    → load_chart_lines (some (some (map some lines))) ≡ lines
unfolding load_chart_lines
stored_lines_lem lines h = normalize-kept lines h

stored_dates_lem :
    (calendar : Calendar) (now : ℤ) (range : CustomRange)
    → load_custom_time_range calendar now (stored_dates range) ≡ settled_dates calendar now range
unfolding load_custom_time_range
stored_dates_lem calendar now range = refl

-- In whatever state changes of the tab, the range, the dates and the lines leave the page, if its storage
-- can be written, the page that is loaded again after the effects has the same tab, range and lines, and
-- the same dates, unless they are complete and refused: then it has the default ones.
pub load_controls-store_controls :
    (calendar : Calendar) (now : ℤ) (c : PageControls) (s : PageStorage)
    → Reach c
    → s.is_writable ≡ true
    → load_controls calendar now (store_controls c s)
      ≡ record c { custom_time_range = settled_dates calendar now c.custom_time_range }
load_controls-store_controls calendar now c s r w =
    let kept = Reach-IsKept r in
    let (_, range, _, tab) = stored_choices (λ t. t) none c.time_range c.active_tab in
    rw (stored_controls c s w) (
      load_controls-parts calendar now _
        (record c { custom_time_range = settled_dates calendar now c.custom_time_range }) tab
        (stored_lines_lem c.chart_lines kept.lines) (range ∙ kept.range)
        (stored_dates_lem calendar now c.custom_time_range))
