-- ===== src/Snapshot/Laws.antt =====
-- The snapshot of a range counts the events in it.
use daili_usage_keeper_north.Base.{
  ℕ, ◌+◌, ◌≡◌, ◌↔◌, refl, ap, sym, ◌∙◌, String, true, false, Option, some, List, [], ◌∷◌, foldl,
  lookup, group, lookup-group, ℤ, pos, ◌+ℤ◌, or_else, filter, length, str_eq, arith, Bool-cases,
  inl, inr, +ℤ_assoc, +ℤ_zero, zero_+ℤ,
}
use daili_usage_keeper_north.Host.{Host}
use daili_usage_keeper_north.Usage.Window.{TimeRange}
use daili_usage_keeper_north.Snapshot.{
  UsageEvent, UsageSnapshot, no_totals, tokens_of_event, add_event_to_api, add_event, filter_event,
  filter_from, is_kept, time_of_event, no_snapshot, is_whole, latest_timestamp,
  collect_usage_events, filter_usage_snapshot, threshold_of, upper_threshold_of,
}
use daili_usage_keeper_north.Snapshot.Range.{
  LiesIn, IsLatest, is_in, is_in_iff, latest_timestamp-IsLatest,
}
use daili_usage_keeper_north.Snapshot.Tally.{
  sum_of_tokens, tally, zero_plus, count_all, count_all-plus, totals_of_api, absorb-totals, bump,
  bump_tokens, HoldsAll, moved-HoldsAll, none-HoldsAll,
}

module _ (h : Host) where
  abbrev add_kept : UsageSnapshot → UsageEvent → UsageSnapshot
  add_kept s e = add_event h (or_else (time_of_event h e) (pos 0)) e s

  filter_all :
      (threshold : ℤ) (upper : Option ℤ) (s : UsageSnapshot) (es : List UsageEvent)
      → foldl (filter_event h threshold upper) s es
        ≡ foldl add_kept s (filter (is_kept h threshold upper) es)
  unfolding filter_event
  filter_all threshold upper s [] = refl
  filter_all threshold upper s (e ∷ es) = elim (Bool-cases (is_kept h threshold upper e)) [
    | inl k ↦ rw k (filter_all threshold upper (add_kept s e) es)
    | inr k ↦ rw k (filter_all threshold upper s es)
  ]

  kept_totals :
      (s : UsageSnapshot) (es : List UsageEvent)
      → (foldl add_kept s es).totals ≡ count_all s.totals es
  unfolding add_event
  kept_totals s [] = refl
  kept_totals s (e ∷ es) = kept_totals (add_kept s e) es

  kept_apis :
      (s : UsageSnapshot) (es : List UsageEvent)
      → (foldl add_kept s es).apis ≡ group add_event_to_api (λ e. e.api_name) s.apis es
  unfolding add_event group
  kept_apis s [] = refl
  kept_apis s (e ∷ es) = kept_apis (add_kept s e) es

  added-HoldsAll :
      (time : ℤ) (e : UsageEvent) (s : UsageSnapshot) (n : ℕ) (t : ℤ)
      → HoldsAll s n t
      → HoldsAll (add_event h time e s) (n + 1) (t +ℤ tokens_of_event e)
  unfolding add_event
  added-HoldsAll time e s n t c = record {
    days = bump _ s.requests_by_day ∙ ap (λ x. x + 1) c.days;
    hours = bump _ s.requests_by_hour ∙ ap (λ x. x + 1) c.hours;
    day_tokens =
        bump_tokens _ (tokens_of_event e) s.tokens_by_day
        ∙ ap (λ x. x +ℤ tokens_of_event e) c.day_tokens;
    hour_tokens =
        bump_tokens _ (tokens_of_event e) s.tokens_by_hour
        ∙ ap (λ x. x +ℤ tokens_of_event e) c.hour_tokens;
  }

  kept-HoldsAll :
      (s : UsageSnapshot) (n : ℕ) (t : ℤ) (es : List UsageEvent)
      → HoldsAll s n t
      → HoldsAll (foldl add_kept s es) (n + length es) (t +ℤ sum_of_tokens es)
  kept-HoldsAll s n t [] c =
      moved-HoldsAll s n (n + 0) t (t +ℤ pos 0) c (omega arith) (sym (+ℤ_zero t))
  kept-HoldsAll s n t (e ∷ es) c =
      moved-HoldsAll (foldl add_kept s (e ∷ es)) _ _ _ _
        (kept-HoldsAll (add_kept s e) (n + 1) (t +ℤ tokens_of_event e) es
          (added-HoldsAll (or_else (time_of_event h e) (pos 0)) e s n t c))
        (omega arith) (+ℤ_assoc t (tokens_of_event e) (sum_of_tokens es))

  -- The events of a snapshot that lie in a range.
  abbrev pub in_range : (now midnight latest : ℤ) → UsageSnapshot → TimeRange → List UsageEvent
  in_range now midnight latest usage range =
      filter (is_in h range now midnight latest) (collect_usage_events h usage)

  filtered :
      (now midnight latest : ℤ) (usage : UsageSnapshot) (range : TimeRange)
      → is_whole range ≡ false
      → latest_timestamp h (collect_usage_events h usage) ≡ some latest
      → filter_usage_snapshot h now midnight usage range
        ≡ foldl add_kept no_snapshot (in_range now midnight latest usage range)
  unfolding filter_usage_snapshot filter_from
  filtered now midnight latest usage range e k =
      rw (e, k)
        (filter_all (threshold_of range midnight latest) (upper_threshold_of range now) no_snapshot
          (collect_usage_events h usage))

  tally_of_api :
      (j : String) (es : List UsageEvent)
      → totals_of_api (lookup j (foldl add_kept no_snapshot es).apis)
        ≡ tally (filter (λ e. str_eq e.api_name j) es)
  unfolding lookup
  tally_of_api j es =
      ap (λ m. totals_of_api (lookup j m)) (kept_apis no_snapshot es)
      ∙ ap totals_of_api (lookup-group add_event_to_api (λ e. e.api_name) j [] es)
      ∙ absorb-totals (lookup j []) (filter (λ e. str_eq e.api_name j) es)
      ∙ count_all-plus no_totals (filter (λ e. str_eq e.api_name j) es)
      ∙ zero_plus (tally (filter (λ e. str_eq e.api_name j) es))

  -- The snapshot of a range other than all and custom, of a snapshot with an event whose date can be
  -- read, counts just the events in the range: its own numbers are those of these events, those of every
  -- API are those of the API's events among them, and the buckets of the days and of the hours add up to
  -- them. An event is in the range exactly when it has a date and, for today, its time is from midnight
  -- to now, or else it is no more than 4, 8, 12 or 24 hours or 7 days before the latest event's, which
  -- is the latest time of all events.
  pub filter_usage_snapshot_lem :
      (now midnight latest : ℤ) (usage : UsageSnapshot) (range : TimeRange)
      → is_whole range ≡ false
      → latest_timestamp h (collect_usage_events h usage) ≡ some latest
      → ((filter_usage_snapshot h now midnight usage range).totals
          ≡ tally (in_range now midnight latest usage range))
        × ((j : String)
            → totals_of_api (lookup j (filter_usage_snapshot h now midnight usage range).apis)
              ≡ tally
                  (filter (λ e. str_eq e.api_name j) (in_range now midnight latest usage range)))
        × HoldsAll
            (filter_usage_snapshot h now midnight usage range)
            (length (in_range now midnight latest usage range))
            (sum_of_tokens (in_range now midnight latest usage range))
        × ((e : UsageEvent)
            → (is_in h range now midnight latest e ≡ true) ↔ LiesIn h range now midnight latest e)
        × IsLatest h latest (collect_usage_events h usage)
  filter_usage_snapshot_lem now midnight latest usage range e k =
      let es = in_range now midnight latest usage range in
      rw (filtered now midnight latest usage range e k) (
        kept_totals no_snapshot es ∙ count_all-plus no_totals es ∙ zero_plus (tally es),
        (λ j. tally_of_api j es),
        moved-HoldsAll (foldl add_kept no_snapshot es) _ _ _ _
            (kept-HoldsAll no_snapshot 0 (pos 0) es none-HoldsAll) (omega arith)
            (zero_+ℤ (sum_of_tokens es)),
        (λ d. is_in_iff h range now midnight latest d e),
        latest_timestamp-IsLatest h latest (collect_usage_events h usage) k,
      )
