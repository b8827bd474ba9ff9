-- ===== src/Page/Controls/Filters.antt =====
-- `sanitizeRequestEventFilters` of web/src/pages/UsagePage.tsx, the handlers of the filters and of the
-- page size, and the effect that drops the filters that are no longer offered.
pub mod Laws
use daili_usage_keeper_north.Base.{
  ℕ, String, Bool, true, false, not, ◌&&◌, ◌||◌, List, if◌then◌else◌, str_eq, any, ◌≡◌, refl, arith,
  ◌⊎◌, eq_iff,
}
use daili_usage_keeper_north.Events.Paging.{SelectOption, has_value}
use daili_usage_keeper_north.Usage.Chart.{includes}

pub record RequestEventFilters : Type 0 where
  pub model : String
  pub source : String
  pub result : String

pub record RequestEventFilterOptions : Type 0 where
  pub models : List String
  pub sources : List SelectOption

abbrev pub all_request_events_filter : String
all_request_events_filter = "__all__"

abbrev pub kept_or_all : Bool → String → String
kept_or_all offered value = if offered then value else all_request_events_filter

unfoldable pub sanitize_request_event_filters :
    RequestEventFilters → RequestEventFilterOptions → RequestEventFilters
sanitize_request_event_filters filters options = record {
  model =
      kept_or_all
        (str_eq filters.model all_request_events_filter || includes options.models filters.model)
        filters.model;
  source =
      kept_or_all
        (str_eq filters.source all_request_events_filter
          || any (λ o. str_eq o.value filters.source) options.sources)
        filters.source;
  result =
      kept_or_all (str_eq filters.result "success" || str_eq filters.result "failed")
        filters.result;
}

-- The part of the page's state that the filters and the pager share.
pub record EventQuery : Type 0 where
  pub filters : RequestEventFilters
  pub page : ℕ
  pub page_size : ℕ

abbrev pub reset_events_page : EventQuery → EventQuery
reset_events_page q = record q { page = 1 }

unfoldable pub handle_events_page_size_change : ℕ → EventQuery → EventQuery
handle_events_page_size_change page_size q = reset_events_page (record q { page_size = page_size })

unfoldable pub handle_events_model_filter_change : String → EventQuery → EventQuery
handle_events_model_filter_change model q =
    reset_events_page (record q { filters = record q.filters { model = model } })

unfoldable pub handle_events_source_filter_change : String → EventQuery → EventQuery
handle_events_source_filter_change source q =
    reset_events_page (record q { filters = record q.filters { source = source } })

unfoldable pub handle_events_result_filter_change : String → EventQuery → EventQuery
handle_events_result_filter_change result q =
    reset_events_page (record q { filters = record q.filters { result = result } })

-- The setters that the effect calls: one for each filter that differs, then `resetEventsPage`.
unfoldable pub set_filters : RequestEventFilters → EventQuery → EventQuery
set_filters next q =
    let same_model = str_eq next.model q.filters.model in
    let same_source = str_eq next.source q.filters.source in
    let same_result = str_eq next.result q.filters.result in
    let q1 =
      if same_model then q else record q { filters = record q.filters { model = next.model } } in
    let q2 =
      if same_source
      then q1
      else record q1 { filters = record q1.filters { source = next.source } } in
    let q3 =
      if same_result
      then q2
      else record q2 { filters = record q2.filters { result = next.result } } in
    if same_model && same_source && same_result then q3 else reset_events_page q3

-- The effect.
unfoldable pub drop_stale_filters : RequestEventFilterOptions → EventQuery → EventQuery
unfolding sanitize_request_event_filters set_filters
drop_stale_filters options q = set_filters (sanitize_request_event_filters q.filters options) q
