-- ===== src/Page/Loader/Tabs.antt =====
-- The loaders of the tabs: what each of `loadAnalysis`, `loadEvents` and `loadCredentials` of
-- web/src/pages/UsagePage.tsx and `loadPricing` of usePricingData.ts sets, and how it comes in.
pub mod Laws
use daili_usage_keeper_north.Base.{
  ℕ, String, Bool, true, false, not, ◌&&◌, Option, none, some, List, [], ◌∷◌, Dict, if◌then◌else◌,
  ltb, str_eq,
}
use daili_usage_keeper_north.Store.{Failure}
use daili_usage_keeper_north.Usage.Stats.{ModelPrice}
use daili_usage_keeper_north.Usage.Window.{TimeRange, custom}
use daili_usage_keeper_north.Page.Analysis.{AnalysisResponse, from_entries}
use daili_usage_keeper_north.Page.Controls.{
  UsageTab, overview, analysis, events, credentials, pricing,
}
use daili_usage_keeper_north.Page.Controls.Filters.{EventQuery, all_request_events_filter}
use daili_usage_keeper_north.Page.Dates.{
  Calendar, CustomRange, Query, is_incomplete, refuses, build_custom_date_range_query,
  get_event_query_window,
}
use daili_usage_keeper_north.Page.Loader.{Loader, Entry, load, refuse, leave, is_auth_error}

-- `timeRange === 'custom'`
abbrev pub is_custom : TimeRange → Bool
is_custom custom = true
is_custom _ = false

-- What an effect does on its tab, and on the others.
abbrev pub on_tab : {Q : Type 0} → Bool → Entry Q → Entry Q
on_tab active entry = if active then entry else leave

-- The request of a range: `timeRange`, `start` and `end`.
pub record RangeQuery : Type 0 where
  pub range : TimeRange
  pub start : Option String
  pub stop : Option String

abbrev pub no_analysis : AnalysisResponse
no_analysis = record { apis = []; models = [] }

unfoldable pub analysis_entry : Calendar → TimeRange → CustomRange → Entry RangeQuery
unfolding refuses build_custom_date_range_query
analysis_entry calendar range dates =
    let q = build_custom_date_range_query calendar dates in
    if not (is_custom range)
    then load (record { range = range; start = none; stop = none })
    else if is_incomplete dates
    then refuse
    else if refuses calendar dates
    then refuse
    else load (record { range = range; start = q.start; stop = q.stop })

unfoldable pub analysis_loader : Loader RangeQuery AnalysisResponse AnalysisResponse
analysis_loader = record {
  started = λ d. no_analysis;
  emptied = λ d. no_analysis;
  accepted = λ q r d. r;
  failed_current = λ d. no_analysis;
  failed_any = λ e d. d;
  fallback = "Failed to load usage analysis";
}

-- `usageIdentities`; I is an identity.
unfoldable pub credentials_loader : (I : Type 0) → Loader Unit (List I) (List I)
credentials_loader I = record {
  started = λ d. [];
  emptied = λ d. d;
  accepted = λ q r d. r;
  failed_current = λ d. [];
  failed_any = λ e d. d;
  fallback = "Failed to load usage identities";
}

pub record EventsRequest : Type 0 where
  pub range : TimeRange
  pub start : Option String
  pub stop : Option String
  pub page : ℕ
  pub page_size : ℕ
  pub model : Option String
  pub source : Option String
  pub result : Option String

pub record EventsResponse (E : Type 0) : Type 0 where
  pub events : List E
  pub total_count : ℕ
  pub total_pages : ℕ

-- The rows that are shown, and `eventsPage`.
pub record EventsShown (E : Type 0) : Type 0 where
  pub events : List E
  pub total_count : ℕ
  pub total_pages : ℕ
  pub page : ℕ

abbrev pub sent_filter : String → Option String
sent_filter value = if str_eq value all_request_events_filter then none else some value

unfoldable pub events_entry : Calendar → TimeRange → CustomRange → EventQuery → Entry EventsRequest
unfolding get_event_query_window
events_entry calendar range dates q =
    let w = get_event_query_window calendar (is_custom range) dates in
    if w.valid
    then load (record {
      range = range;
      start = w.start;
      stop = w.stop;
      page = q.page;
      page_size = q.page_size;
      model = sent_filter q.filters.model;
      source = sent_filter q.filters.source;
      result = sent_filter q.filters.result;
    })
    else refuse

module _ {E : Type 0} where
  abbrev pub no_events : EventsShown E → EventsShown E
  no_events d = record d { events = []; total_count = 0; total_pages = 0 }

  -- A page beyond the last one is not shown: the last one is asked for instead.
  unfoldable pub accept_events : EventsRequest → EventsResponse E → EventsShown E → EventsShown E
  accept_events q r d =
      if ltb 0 r.total_pages && ltb r.total_pages q.page
      then record d { page = r.total_pages }
      else record d { events = r.events; total_count = r.total_count; total_pages = r.total_pages }

  unfoldable pub events_loader : Loader EventsRequest (EventsResponse E) (EventsShown E)
  unfolding accept_events
  events_loader = record {
    started = λ d. d;
    emptied = no_events;
    accepted = accept_events;
    failed_current = no_events;
    failed_any = λ e d. d;
    fallback = "Failed to load usage events";
  }

pub record PricingEntry (C : Type 0) : Type 0 where
  pub model : String
  pub prompt_price_per_1m : C
  pub completion_price_per_1m : C
  pub cache_price_per_1m : C

abbrev pub pricing_to_model_price : {C : Type 0} → PricingEntry C → ModelPrice C
pricing_to_model_price entry = record {
  prompt = entry.prompt_price_per_1m;
  completion = entry.completion_price_per_1m;
  cache = entry.cache_price_per_1m;
}

-- The prices and the names that are shown, and what `saveModelPrices` wrote.
pub record PricingShown (C : Type 0) : Type 0 where
  pub model_prices : Dict (ModelPrice C)
  pub model_names : List String
  pub saved : Dict (ModelPrice C)

-- The prices and the models of the two responses; `read` is what `loadModelPrices` makes of what was
-- written.
unfoldable pub pricing_loader :
    {C : Type 0}
    → (Dict (ModelPrice C) → Dict (ModelPrice C))
    → Loader Unit (List (PricingEntry C) × List String) (PricingShown C)
unfolding from_entries
pricing_loader read = record {
  started = λ d. d;
  emptied = λ d. d;
  accepted = λ q r d.
      let prices = from_entries (λ e. e.model) pricing_to_model_price [] r.0 in
      record { model_prices = prices; model_names = r.1; saved = prices };
  failed_current = λ d. d;
  failed_any = λ e d. if is_auth_error e then d else record d { model_prices = read d.saved };
  fallback = "Failed to load pricing";
}

-- The calls that `refreshActiveTab` makes, in this order.
pub data TabCall : Type 0 where
  load_event_filter_options load_events load_credentials load_analysis load_pricing load_usage :
      TabCall

unfoldable pub refresh_active_tab : UsageTab → List TabCall
refresh_active_tab events = load_event_filter_options ∷ load_events ∷ []
refresh_active_tab credentials = load_credentials ∷ []
refresh_active_tab analysis = load_analysis ∷ []
refresh_active_tab pricing = load_pricing ∷ []
refresh_active_tab overview = load_usage ∷ []
