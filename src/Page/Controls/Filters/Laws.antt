-- ===== src/Page/Controls/Filters/Laws.antt =====
-- The effect that drops stale filters runs once, and a filter that is set starts at the first page.
use daili_usage_keeper_north.Base.{
  Bool, true, ◌&&◌, str_eq, ◌≡◌, refl, ap, sym, ◌∙◌, arith, eq_iff, if◌then◌else◌,
}
use daili_usage_keeper_north.Page.Controls.Filters.{
  RequestEventFilters, RequestEventFilterOptions, sanitize_request_event_filters, EventQuery,
  drop_stale_filters, set_filters,
}

sanitize_twice :
    (f : RequestEventFilters) (o : RequestEventFilterOptions)
    → sanitize_request_event_filters (sanitize_request_event_filters f o) o
      ≡ sanitize_request_event_filters f o
unfolding sanitize_request_event_filters
sanitize_twice f o = ground arith

abbrev pub same_filters : RequestEventFilters → RequestEventFilters → Bool
same_filters f g = str_eq f.model g.model && str_eq f.source g.source && str_eq f.result g.result

set_filters_lem :
    (next : RequestEventFilters) (q : EventQuery)
    → set_filters next q
      ≡ record q { filters = next; page = (if same_filters next q.filters then q.page else 1) }
unfolding set_filters
set_filters_lem next q = ground (
  arith,
  eq_iff next.model q.filters.model,
  eq_iff next.source q.filters.source,
  eq_iff next.result q.filters.result,
)

abbrev pub filters_kept : RequestEventFilterOptions → EventQuery → Bool
filters_kept o q = same_filters (sanitize_request_event_filters q.filters o) q.filters

dropped :
    (o : RequestEventFilterOptions) (q : EventQuery)
    → drop_stale_filters o q ≡ record q {
      filters = sanitize_request_event_filters q.filters o;
      page = (if filters_kept o q then q.page else 1);
    }
unfolding drop_stale_filters
dropped o q = set_filters_lem (sanitize_request_event_filters q.filters o) q

same_filters_refl : (f : RequestEventFilters) → same_filters f f ≡ true
same_filters_refl f =
    ground (arith, eq_iff f.model f.model, eq_iff f.source f.source, eq_iff f.result f.result)

set_filters-same :
    (next : RequestEventFilters) (q : EventQuery) → next ≡ q.filters → set_filters next q ≡ q
set_filters-same next q h =
    rw h (set_filters_lem q.filters q ∙ rw (same_filters_refl q.filters) refl)

dropped_twice :
    (o : RequestEventFilterOptions) (q : EventQuery)
    → drop_stale_filters o (drop_stale_filters o q) ≡ drop_stale_filters o q
unfolding drop_stale_filters
dropped_twice o q =
    let e = ap (λ r. r.filters) (dropped o q) in
    set_filters-same (sanitize_request_event_filters (drop_stale_filters o q).filters o)
      (drop_stale_filters o q)
      (ap (λ f. sanitize_request_event_filters f o) e ∙ sanitize_twice q.filters o ∙ sym e)

-- The effect sets every filter to its sanitized value, goes to the first page if one was changed and
-- leaves the page size; run again on its result, it changes nothing.
pub drop_stale_filters_lem :
    (o : RequestEventFilterOptions) (q : EventQuery)
    → ((drop_stale_filters o q).filters ≡ sanitize_request_event_filters q.filters o)
      × ((drop_stale_filters o q).page ≡ (if filters_kept o q then q.page else 1))
      × ((drop_stale_filters o q).page_size ≡ q.page_size)
      × (drop_stale_filters o (drop_stale_filters o q) ≡ drop_stale_filters o q)
drop_stale_filters_lem o q = (
  ap (λ r. r.filters) (dropped o q),
  ap (λ r. r.page) (dropped o q),
  ap (λ r. r.page_size) (dropped o q),
  dropped_twice o q,
)
