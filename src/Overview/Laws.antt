-- ===== src/Overview/Laws.antt =====
-- The charts of the overview: the hours that they show, and the days of the costs.
use daili_usage_keeper_north.Base.{
  ℕ, zero, suc, ◌-◌, ◌*◌, ◌≡◌, refl, ◌∙◌, ap, String, Option, none, some, [], ◌∷◌, Dict, lookup,
  List, map, lookup-group, absorb, filter, str_eq, foldl, length, ℤ, pos, ◌+ℤ◌, ◌-ℤ◌, int_laws,
  arith, num, or_else, ◌<◌, Bool, true, JsNumber,
}
use daili_usage_keeper_north.Host.{Host}
use daili_usage_keeper_north.Usage.Stats.{Money}
use daili_usage_keeper_north.Usage.Window.{positive_time}
use daili_usage_keeper_north.Usage.Chart.{
  hour, hour_ms, bucket_count, normalize_hour_window, start_of_hour, hours_from,
}
use daili_usage_keeper_north.Usage.{format_hour_bucket_key}
use daili_usage_keeper_north.Overview.{Overview, sorted_labels}
use daili_usage_keeper_north.Overview.CostTrend.{
  CostTrendSeries, given_end, entries_of, cost_series, selected_series, is_cost_available,
  build_overview_cost_trend_series, by_hour, anchor_ms, format_clock_label, cost_hours,
  grouped_days, day_key_of_label,
}
use daili_usage_keeper_north.Overview.Tokens.{
  TokenChartSeries, requested_end_ms, last_of_labels, field_of, token_hours,
  build_token_breakdown_chart_series, hourly_labels, token_source,
}

length-hours_from : (first : ℤ) (n : ℕ) → length (hours_from first n) ≡ n
unfolding hours_from
length-hours_from first zero = refl
length-hours_from first (suc n) = ap suc (length-hours_from (first +ℤ pos hour_ms) n)

step_back :
    (end : ℤ) (k : ℕ) → end -ℤ pos (suc k * hour_ms) +ℤ pos hour_ms ≡ end -ℤ pos (k * hour_ms)
step_back end k = omega int_laws

-- One hour earlier, one hour more.
hours_earlier :
    (end : ℤ) (k : ℕ)
    → hours_from (end -ℤ pos (suc k * hour_ms)) (suc (suc k))
      ≡ (end -ℤ pos (suc k * hour_ms)) ∷ hours_from (end -ℤ pos (k * hour_ms)) (suc k)
unfolding hours_from
hours_earlier end k =
    ap (λ t. (end -ℤ pos (suc k * hour_ms)) ∷ hours_from t (suc k)) (step_back end k)

window_is : (k : ℕ) → suc k < 24 → normalize_hour_window (some (num (pos (suc k)))) ≡ suc k
unfolding normalize_hour_window
window_is k b = ground arith

count_is : (k : ℕ) → suc k < 24 → bucket_count (some (num (pos (suc k)))) ≡ suc (suc k)
count_is k b = rw (window_is k b) (ground arith)

less_one : (n : ℕ) → suc n - 1 ≡ n
less_one n = omega arith

hours_at :
    (end : ℤ) (k : ℕ)
    → hours_from (end -ℤ pos ((suc (suc k) - 1) * hour_ms)) (suc (suc k))
      ≡ (end -ℤ pos (suc k * hour_ms)) ∷ hours_from (end -ℤ pos ((suc k - 1) * hour_ms)) (suc k)
hours_at end k = rw (less_one (suc k), less_one k) (hours_earlier end k)

-- The hours of the costs are one more than those of the tokens, at the front; the others are the same.
cost_hours-token_hours :
    (k : ℕ) (end : ℤ)
    → suc k < 24
    → cost_hours (some (num (pos (suc k)))) end
      ≡ (start_of_hour end -ℤ pos (suc k * hour_ms)) ∷ token_hours (some (num (pos (suc k)))) end
unfolding cost_hours token_hours
cost_hours-token_hours k end b = rw (count_is k b, window_is k b) (hours_at (start_of_hour end) k)

-- The hours of a window of k + 1 hours that ends in the hour of a time, or of one that starts earlier.
abbrev pub hours_until : ℤ → ℕ → List ℤ
hours_until end k = hours_from (start_of_hour end -ℤ pos (k * hour_ms)) (suc k)

token_hours-until :
    (k : ℕ) (end : ℤ) → suc k < 24 → token_hours (some (num (pos (suc k)))) end ≡ hours_until end k
unfolding token_hours
token_hours-until k end b = rw (window_is k b, less_one k) refl

module _ (h : Host) {C : Type 0} (money : Money C) (now : ℤ) (usage : Overview C) (k : ℕ) (end : ℕ)
    (label : String) (others : List String) where
  abbrev window : Option JsNumber
  window = some (num (pos (suc k)))

  abbrev stop : Option JsNumber
  stop = some (num (pos (suc end)))

  given_end_lem : given_end stop ≡ some (pos (suc end))
  given_end_lem = ground arith

  anchor_ms_lem : (entries : Dict C) → anchor_ms h now stop entries ≡ some (pos (suc end))
  unfolding anchor_ms
  anchor_ms_lem entries = rw (anchor_ms, given_end_lem) refl

  cost_labels :
      (entries : Dict C) (available : Bool)
      → (c : CostTrendSeries C) × (by_hour h money now window stop entries available ≡ some c)
        × (c.labels
            ≡ map (λ t. format_clock_label h (h.iso_string t)) (cost_hours window (pos (suc end))))
  unfolding by_hour
  cost_labels entries available = rw (by_hour, anchor_ms_lem entries) (_, refl, refl)

  requested_lem : (latest : String) → requested_end_ms h stop latest ≡ some (pos (suc end))
  unfolding positive_time
  requested_lem latest = ground arith

  token_labels :
      suc k < 24
      → hourly_labels h window stop (label ∷ others)
        ≡ some (map (format_hour_bucket_key h) (hours_until (pos (suc end)) k))
  unfolding hourly_labels
  token_labels b =
      rw (hourly_labels, requested_lem (last_of_labels label others))
        (ap (λ hours. some (map (format_hour_bucket_key h) hours))
          (token_hours-until k (pos (suc end)) b))

  token_chart :
      (labels : List String)
      → sorted_labels h (field_of h (λ s. s.input_tokens) (token_source h (some usage) hour))
        ≡ label ∷ others
      → hourly_labels h window stop (label ∷ others) ≡ some labels
      → (t : TokenChartSeries) × (build_token_breakdown_chart_series h (some usage) hour window stop
          ≡ some t)
        × (t.labels ≡ map (format_clock_label h) labels)
  unfolding build_token_breakdown_chart_series
  token_chart labels e f = rw (build_token_breakdown_chart_series, e, f) (_, refl, refl)

  -- For an overview whose series by hour has a bucket of input tokens, a window of 1 to 23 whole hours and
  -- the same positive end: both charts by hour are drawn, and the chart of the costs shows one hour
  -- more than the chart of the tokens beside it, at the front; the others are the same hours.
  pub hour_charts_lem :
      suc k < 24
      → sorted_labels h (field_of h (λ s. s.input_tokens) (token_source h (some usage) hour))
        ≡ label ∷ others
      → let window = some (num (pos (suc k))) in
        let stop = some (num (pos (suc end))) in
        let hours = hours_until (pos (suc end)) k in
        ((c : CostTrendSeries C) × (build_overview_cost_trend_series h money now
              (some usage)
              hour
              window
              stop
            ≡ some c)
          × (c.labels
              ≡ map
                  (λ t. format_clock_label h (h.iso_string t))
                  ((start_of_hour (pos (suc end)) -ℤ pos (suc k * hour_ms)) ∷ hours)))
        × ((t : TokenChartSeries) × (build_token_breakdown_chart_series h
                (some usage)
                hour
                window
                stop
              ≡ some t)
            × (t.labels ≡ map (format_clock_label h) (map (format_hour_bucket_key h) hours)))
  unfolding build_overview_cost_trend_series
  hour_charts_lem b labelled =
      let hours = hours_until (pos (suc end)) k in
      let (c, drawn, labels) =
        cost_labels (entries_of h true (cost_series h money (selected_series h money hour usage)))
          (is_cost_available h money usage) in
      (
        (
          c,
          drawn,
          labels
              ∙ ap (map (λ t. format_clock_label h (h.iso_string t))) (
                  cost_hours-token_hours k (pos (suc end)) b
                  ∙ ap (λ l. (start_of_hour (pos (suc end)) -ℤ pos (suc k * hour_ms)) ∷ l)
                      (token_hours-until k (pos (suc end)) b)),
        ),
        token_chart (map (format_hour_bucket_key h) hours) labelled (token_labels b),
      )

-- The sum of the costs of some entries, in their order; of none there is none.
abbrev pub sum_of : {C : Type 0} → Money C → Dict C → Option C
sum_of money [] = none
sum_of money (e ∷ es) = some (foldl (λ sum d. money.plus sum d.1) (money.plus money.nothing e.1) es)

absorb-some :
    {C : Type 0} (money : Money C) (sum : C) (es : Dict C)
    → absorb (λ e old. money.plus (or_else old money.nothing) e.1) (some sum) es
      ≡ some (foldl (λ s d. money.plus s d.1) sum es)
absorb-some money sum [] = refl
absorb-some money sum (e ∷ es) = absorb-some money (money.plus sum e.1) es

absorb-sum :
    {C : Type 0} (money : Money C) (es : Dict C)
    → absorb (λ e old. money.plus (or_else old money.nothing) e.1) none es ≡ sum_of money es
absorb-sum money [] = refl
absorb-sum money (e ∷ es) = absorb-some money (money.plus money.nothing e.1) es

-- Without costs by day, the chart of the days has a day just if an hour of the series falls on it, with
-- the sum of the costs of these hours.
lookup-grouped_days :
    (h : Host) {C : Type 0} (money : Money C) (day : String) (hourly : Dict C)
    → lookup day (grouped_days h money [] hourly)
      ≡ sum_of money (filter (λ e. str_eq (day_key_of_label h e.0) day) hourly)
unfolding grouped_days lookup
lookup-grouped_days h money day hourly =
    lookup-group (λ e old. money.plus (or_else old money.nothing) e.1) (λ e. day_key_of_label h e.0)
      day [] hourly
    ∙ absorb-sum money (filter (λ e. str_eq (day_key_of_label h e.0) day) hourly)
