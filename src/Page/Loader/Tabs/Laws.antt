-- ===== src/Page/Loader/Tabs/Laws.antt =====
-- The tabs ask for the same range, and the pager comes to rest.
use daili_usage_keeper_north.Base.{◌≤◌, ◌≡◌, ◌⊎◌, Option, none, some, arith}
use daili_usage_keeper_north.Usage.Window.{TimeRange}
use daili_usage_keeper_north.Page.Controls.Filters.{EventQuery}
use daili_usage_keeper_north.Page.Dates.{
  Calendar, CustomRange, build_custom_date_range_query, get_event_query_window,
}
use daili_usage_keeper_north.Page.Loader.{Entry, load, refuse, leave}
use daili_usage_keeper_north.Page.Loader.Tabs.{
  RangeQuery, EventsRequest, EventsResponse, EventsShown, analysis_entry, events_entry,
  accept_events,
}

abbrev pub range_of_analysis : Entry RangeQuery → Option RangeQuery
range_of_analysis (load q) = some q
range_of_analysis refuse = none
range_of_analysis leave = none

abbrev pub range_of_events : Entry EventsRequest → Option RangeQuery
range_of_events (load q) = some (record { range = q.range; start = q.start; stop = q.stop })
range_of_events refuse = none
range_of_events leave = none

-- The analysis and the events tab ask the server for the same range, or both ask nothing.
same_range :
    (calendar : Calendar) (range : TimeRange) (dates : CustomRange) (q : EventQuery)
    → range_of_events (events_entry calendar range dates q)
      ≡ range_of_analysis (analysis_entry calendar range dates)
unfolding analysis_entry events_entry build_custom_date_range_query get_event_query_window
same_range calendar range dates q = ground arith

-- A request that runs into a page beyond the last one leaves the rows, and the request for the page that
-- it sets instead is shown, if the number of pages is still the same; a page in range is shown at once.
pub accept_events_lem :
    {E : Type 0} (q : EventsRequest) (r r' : EventsResponse E) (d : EventsShown E)
    → d.page ≡ q.page
    → r'.total_pages ≡ r.total_pages
    → let once = accept_events q r d in
      let twice = accept_events (record q { page = once.page }) r' once in
      (twice.events ≡ r'.events)
      × (twice.page ≡ once.page)
      × ((once.events ≡ d.events) ⊎ (once.events ≡ r.events))
      × ((twice.page ≤ r.total_pages) ⊎ (r.total_pages ≡ 0))
unfolding accept_events
accept_events_lem q r r' d h k = ground arith
