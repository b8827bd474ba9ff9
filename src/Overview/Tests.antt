-- ===== src/Overview/Tests.antt =====
-- The charts of the overview at concrete values.
use daili_usage_keeper_north.Base.{
  ◌≡◌, refl, none, some, [], ◌∷◌, map, ◌*◌, ◌+◌, ◌-ℤ◌, ℕ, ltb, pos, num, arith, sort,
}
use daili_usage_keeper_north.Usage.{format_hour_bucket_key}
use daili_usage_keeper_north.Usage.Tests.{host}
use daili_usage_keeper_north.Usage.Stats.{Money}
use daili_usage_keeper_north.Usage.Chart.{hour, hour_ms, start_of_hour}
use daili_usage_keeper_north.Overview.{Overview, OverviewSeries, sorted_labels}
use daili_usage_keeper_north.Overview.CostTrend.{
  CostTrendSeries, build_overview_cost_trend_series, format_clock_label,
}
use daili_usage_keeper_north.Overview.Tokens.{
  TokenChartSeries, build_token_breakdown_chart_series, field_of, token_source,
}
use daili_usage_keeper_north.Overview.Laws.{hours_until, hour_charts_lem}

abbrev whole_money : Money ℕ
whole_money = record {
  nothing = 0;
  plus = λ x y. x + y;
  charge = λ n price. price;
  is_positive = λ x. ltb 0 x;
}

abbrev tokens_only : OverviewSeries ℕ
tokens_only = record {
  requests = none;
  tokens = none;
  rpm = none;
  tpm = none;
  cost = none;
  input_tokens = some (("1970-01-02T01:00:00Z", pos 5) ∷ []);
  output_tokens = none;
  cached_tokens = none;
  reasoning_tokens = none;
}

abbrev one_bucket : Overview ℕ
one_bucket = record {
  summary = none;
  series = some tokens_only;
  hourly_series = none;
  daily_series = none;
}

one_bucket-labels :
    sorted_labels host
      (field_of host (λ s. s.input_tokens) (token_source host (some one_bucket) hour))
    ≡ "1970-01-02T01:00:00Z" ∷ []
unfolding sort
one_bucket-labels = refl

-- The window of four hours.
hour_charts_example :
    ((c : CostTrendSeries ℕ) × (build_overview_cost_trend_series host whole_money
          (pos 0)
          (some one_bucket)
          hour
          (some (num (pos 4)))
          (some (num (pos 90_000_000)))
        ≡ some c)
      × (c.labels
          ≡ map
              (λ t. format_clock_label host (host.iso_string t))
              ((start_of_hour (pos 90_000_000) -ℤ pos (4 * hour_ms))
                ∷ hours_until (pos 90_000_000) 3)))
    × ((t : TokenChartSeries) × (build_token_breakdown_chart_series host
            (some one_bucket)
            hour
            (some (num (pos 4)))
            (some (num (pos 90_000_000)))
          ≡ some t)
        × (t.labels
            ≡ map
                (format_clock_label host)
                (map (format_hour_bucket_key host) (hours_until (pos 90_000_000) 3))))
hour_charts_example =
    hour_charts_lem host whole_money (pos 0) one_bucket 3 89_999_999 "1970-01-02T01:00:00Z" []
      (omega arith) one_bucket-labels
