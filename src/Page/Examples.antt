-- ===== src/Page/Examples.antt =====
-- The theorems about the controls, the dates, the filters and the sync of the page at concrete values.
use daili_usage_keeper_north.Base.{
  ◌*◌, ◌+◌, ◌-◌, ◌/◌, ◌≡◌, refl, String, false, none, some, [], ◌∷◌, if◌then◌else◌, trim, arith, ℤ,
  pos, negsuc,
}
use daili_usage_keeper_north.Store.{plain_error}
use daili_usage_keeper_north.Page.Controls.{handle_chart_lines_change}
use daili_usage_keeper_north.Page.Controls.Filters.{
  EventQuery, RequestEventFilterOptions, drop_stale_filters, sanitize_request_event_filters,
}
use daili_usage_keeper_north.Page.Controls.Filters.Laws.{filters_kept, drop_stale_filters_lem}
use daili_usage_keeper_north.Page.Dates.{
  Calendar, to_date_input_value, parse_custom_date_start, parse_custom_date_end,
}
use daili_usage_keeper_north.Page.Dates.Laws.{IsDay, parse-to_date_input_value}
use daili_usage_keeper_north.Page.Sync.{returned, thrown, Action, Buttons, handle_manual_sync}
use daili_usage_keeper_north.Page.Sync.Laws.{Calls, left, handle_manual_sync_lem}

-- A calendar that has January 2026 alone, starting at 0.
abbrev january : Calendar
january = record {
  day_of = λ t. elim t [ pos n ↦ some (2026, 1, n / 86_400_000 + 1) | negsuc n ↦ none ];
  boundary = λ (y, m, d) late. some (pos ((d - 1) * 86_400_000 + (if late then 86_399_999 else 0)));
}

abbrev noon : ℤ
noon = pos 129_600_000

abbrev noon_day : IsDay january noon
noon_day = record {
  y = 2026;
  m = 1;
  d = 2;
  first = pos 86_400_000;
  last = pos 172_799_999;
  found = refl;
  year_min = omega arith;
  year_max = omega arith;
  month_max = omega arith;
  day_max = omega arith;
  first_of = refl;
  last_of = refl;
  first_in = refl;
  last_in = refl;
  after_first = omega arith;
  before_last = omega arith;
}

parse-to_date_input_value_example :
    (parse_custom_date_start january (to_date_input_value january noon) ≡ some (pos 86_400_000))
    × (parse_custom_date_end january (to_date_input_value january noon) ≡ some (pos 172_799_999))
parse-to_date_input_value_example = parse-to_date_input_value january noon noon_day

abbrev query : EventQuery
query = record {
  filters = record { model = "gone"; source = "s"; result = "failed" };
  page = 3;
  page_size = 50;
}

abbrev options : RequestEventFilterOptions
options = record { models = "gpt" ∷ []; sources = record { value = "s"; label = "S" } ∷ [] }

drop_stale_filters_example :
    ((drop_stale_filters options query).filters
      ≡ sanitize_request_event_filters query.filters options)
    × ((drop_stale_filters options query).page ≡ (if filters_kept options query then 3 else 1))
    × ((drop_stale_filters options query).page_size ≡ 50)
    × (drop_stale_filters options (drop_stale_filters options query)
        ≡ drop_stale_filters options query)
drop_stale_filters_example = drop_stale_filters_lem options query

-- The model that is gone is dropped, and the first page is shown.
dropped_filter : drop_stale_filters options query ≡ record {
  filters = record { model = "__all__"; source = "s"; result = "failed" };
  page = 1;
  page_size = 50;
}
unfolding drop_stale_filters
dropped_filter = refl

kept_line : handle_chart_lines_change (" gpt " ∷ "" ∷ []) ≡ "gpt" ∷ []
unfolding handle_chart_lines_change trim
kept_line = refl

-- A server that refuses to sync, and whose status can be read; the state is unchanged.
abbrev refuses_sync : Action Unit String
refuses_sync w = (w, thrown (plain_error "busy"))

abbrev refreshes : Action Unit Unit
refreshes w = (w, returned tt)

abbrev tells : Action Unit String
tells w = (w, returned "old run")

abbrev pressed : Buttons
pressed = record { loading = false; status_error = ""; auth_required = false }

handle_manual_sync_example :
    handle_manual_sync refuses_sync refreshes tells "Failed" ((tt, none), pressed)
    ≡ left refuses_sync refreshes tells "Failed" tt none pressed (thrown (plain_error "busy"))
handle_manual_sync_example =
    handle_manual_sync_lem refuses_sync refreshes tells tt tt (thrown (plain_error "busy")) "Failed"
      none pressed (Calls.not_synced tt tt (plain_error "busy") refl)
