-- ===== src/Usage/Health.antt =====
-- `calculateServiceHealthData` of web/src/utils/usage.ts. Times are in milliseconds, and `now` is
-- `Date.now()`, which is at least 8 days after 1970.
pub mod Laws
use daili_usage_keeper_north.Base.{
  ℕ, ◌+◌, ◌-◌, ◌*◌, ◌/◌, zero, suc, Bool, ◌&&◌, not, Option, none, some, List, [], ◌∷◌, ℤ, pos,
  ltb_ℤ, leb_ℤ, if◌then◌else◌, ltb, filter, length,
}
use daili_usage_keeper_north.Usage.{DetailRecord, time_of}

-- A rate is the quotient of two numbers; `none` is the value for no rows at all.
pub record Block : Type 0 where
  pub start_time : ℕ
  pub end_time : ℕ
  pub success : ℕ
  pub failure : ℕ
  pub rate : Option (ℕ × ℕ)

pub record ServiceHealthData : Type 0 where
  pub total_success : ℕ
  pub total_failure : ℕ
  pub success_rate : Option (ℕ × ℕ)
  pub rows : ℕ
  pub columns : ℕ
  pub bucket_seconds : ℕ
  pub window_start : ℕ
  pub window_end : ℕ
  pub block_details : List Block

abbrev pub succeeded : DetailRecord → Bool
succeeded d = not d.failed

abbrev pub failed_row : DetailRecord → Bool
failed_row d = d.failed

abbrev pub in_block : ℕ → ℕ → DetailRecord → Bool
in_block start stop d = leb_ℤ (pos start) (time_of d) && ltb_ℤ (time_of d) (pos stop)

abbrev pub rate_of : ℕ → ℕ → Option (ℕ × ℕ)
rate_of success failure =
    if ltb 0 (success + failure) then some (success, success + failure) else none

abbrev pub window_ms : ℕ
window_ms = 900_000

unfoldable pub block_of : List DetailRecord → ℕ → Block
block_of details start =
    let matching = filter (in_block start (start + window_ms)) details in
    let success = length (filter succeeded matching) in
    let failure = length (filter failed_row matching) in
    record {
      start_time = start;
      end_time = start + window_ms;
      success = success;
      failure = failure;
      rate = rate_of success failure;
    }

-- The blocks from `start` on, `n` of them.
unfoldable pub blocks_from : List DetailRecord → ℕ → ℕ → List Block
unfolding block_of
blocks_from details start zero = []
blocks_from details start (suc n) =
    block_of details start ∷ blocks_from details (start + window_ms) n

unfoldable pub calculate_service_health_data : ℕ → List DetailRecord → ServiceHealthData
unfolding blocks_from
calculate_service_health_data now details =
    let newest_window_end = now / window_ms * window_ms + window_ms in
    let oldest_window_start = newest_window_end - 672 * window_ms in
    let total_success = length (filter succeeded details) in
    let total_failure = length (filter failed_row details) in
    record {
      total_success = total_success;
      total_failure = total_failure;
      success_rate = rate_of total_success total_failure;
      rows = 7;
      columns = 96;
      bucket_seconds = 900;
      window_start = oldest_window_start;
      window_end = newest_window_end;
      block_details = blocks_from details oldest_window_start 672;
    }
