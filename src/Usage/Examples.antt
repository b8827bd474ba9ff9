-- ===== src/Usage/Examples.antt =====
-- Runs of the latency, health, statistics and chart functions of web/src/utils on small inputs, and
-- the theorems about them at concrete inputs.
use daili_usage_keeper_north.Base.{
  ◌+◌, ◌*◌, ◌≤◌, ◌<◌, ◌≡◌, refl, inl, none, some, [], ◌∷◌, foldl, length, All, pos, ◌+ℤ◌, num,
  arith,
}
use daili_usage_keeper_north.Host.{Host}
use daili_usage_keeper_north.Usage.Tests.{host, rows}
use daili_usage_keeper_north.Usage.Health.{
  window_ms, succeeded, failed_row, calculate_service_health_data,
}
use daili_usage_keeper_north.Usage.Health.Laws.{sum_of, count_in, calculate_service_health_data_lem}
use daili_usage_keeper_north.Usage.Chart.{
  HourlyWindow, requests, tokens, build_hourly_window, hour_chart, add_day_row,
}
use daili_usage_keeper_north.Usage.Chart.Laws.{HasIsoHours, hour_chart-zero}
use daili_usage_keeper_north.Usage.Chart.Twice.{amount_at, all_lines, day_sum, add_day_row-doubles}

abbrev window : HourlyWindow
window = build_hourly_window (pos 9_000_000) (some (num (pos 4))) none

calculate_service_health_data_example :
    let health = calculate_service_health_data 700_000_000 rows in
    (health.window_end ≡ health.window_start + 672 * window_ms)
    × (700_000_000 < health.window_end)
    × (health.window_end ≤ 700_000_000 + window_ms)
    × (sum_of (λ b. b.success) health.block_details
        ≡ count_in succeeded health.window_start health.window_end rows)
    × (sum_of (λ b. b.failure) health.block_details
        ≡ count_in failed_row health.window_start health.window_end rows)
    × (health.total_success + health.total_failure ≡ length rows)
calculate_service_health_data_example =
    calculate_service_health_data_lem 700_000_000 rows (omega arith)

-- A host whose clock stands still in the first hour of 1970.
abbrev still_host : Host
still_host = record host {
  iso_hour = λ t. "1970-01-01T00";
  iso_string = λ t. "1970-01-01T00:00:00.000Z";
}

still_host-HasIsoHours : HasIsoHours still_host
still_host-HasIsoHours = record { size = λ t. refl; full = λ t. inl refl }

hour_chart-zero_example :
    All
      (λ s. All (λ v. v ≡ pos 0) s.values)
      (hour_chart still_host ("all" ∷ []) requests window rows).datasets
hour_chart-zero_example =
    hour_chart-zero still_host still_host-HasIsoHours ("all" ∷ []) requests window rows

add_day_row-doubles_example :
    amount_at "1970-01-01" (foldl (add_day_row host all_lines tokens) [] rows)
    ≡ day_sum host tokens "1970-01-01" rows +ℤ day_sum host tokens "1970-01-01" rows
add_day_row-doubles_example = add_day_row-doubles host tokens "1970-01-01" rows
