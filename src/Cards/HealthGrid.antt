-- ===== src/Cards/HealthGrid.antt =====
-- The numbers of the grid of web/src/components/usage/ServiceHealthCard.tsx, which copies them out of the
-- server's answer: `healthData`, `parseTime` and `formatDateTime`. C is the type of rates. A count is a
-- number from 0 on, and a field that may be missing is an Option.
use daili_usage_keeper_north.Base.{
  ℕ, zero, suc, ◌+◌, ◌*◌, ◌≤◌, ◌≡◌, max, String, Bool, Option, none, some, List, map, length, refl,
  ltb, or_else, is_blank, if◌then◌else◌, ◌<>◌, pad, ℤ, pos, arith,
}
use daili_usage_keeper_north.Host.{Host}
use daili_usage_keeper_north.Events.Paging.{ceil_div}
use daili_usage_keeper_north.Events.Paging.Laws.{ceil_div_lem}

pub record HealthBlock (C : Type 0) : Type 0 where
  pub start_time : String
  pub end_time : String
  pub success : Option ℕ
  pub failure : Option ℕ
  pub rate : Option C

pub record ServiceHealth (C : Type 0) : Type 0 where
  pub total_success : Option ℕ
  pub total_failure : Option ℕ
  pub success_rate : Option C
  pub rows : Option ℕ
  pub columns : Option ℕ
  pub bucket_seconds : Option ℕ
  pub window_start : Option String
  pub window_end : Option String
  pub block_details : List (HealthBlock C)

-- A time is `none` if it is NaN.
pub record GridBlock (C : Type 0) : Type 0 where
  pub start_time : Option ℤ
  pub end_time : Option ℤ
  pub success : ℕ
  pub failure : ℕ
  pub rate : C

pub record HealthData (C : Type 0) : Type 0 where
  pub total_success : ℕ
  pub total_failure : ℕ
  pub success_rate : C
  pub rows : ℕ
  pub columns : ℕ
  pub bucket_seconds : ℕ
  pub window_start : ℤ
  pub window_end : ℤ
  pub block_details : List (GridBlock C)

-- `Number(value) || other`
abbrev pub number_or : ℕ → ℕ → ℕ
number_or zero other = other
number_or (suc n) other = suc n

unfoldable pub columns_of : Option ℕ → ℕ → ℕ → ℕ
columns_of columns size rows = number_or (or_else columns (max 1 (ceil_div size rows))) 1

module _ (h : Host) where
  unfoldable pub parse_time : Option String → ℤ
  parse_time none = pos 0
  parse_time (some value) = if is_blank value then pos 0 else or_else (h.parse_date value) (pos 0)

  unfoldable pub format_date_time : ℤ → String
  unfolding pad
  format_date_time timestamp =
      let (_, month, date) = h.local_day timestamp in
      let (hours, minutes) = h.local_clock timestamp in
      pad month <> ("/" <> (pad date <> (" " <> (pad hours <> (":" <> pad minutes)))))

  -- `no_rate` is 0, and `unknown_rate` is -1.
  module _ {C : Type 0} (no_rate unknown_rate : C) where
    abbrev pub grid_block : HealthBlock C → GridBlock C
    grid_block b = record {
      start_time = h.parse_date b.start_time;
      end_time = h.parse_date b.end_time;
      success = or_else b.success 0;
      failure = or_else b.failure 0;
      rate = or_else b.rate unknown_rate;
    }

    abbrev pub no_health : ServiceHealth C
    no_health = record {
      total_success = none;
      total_failure = none;
      success_rate = none;
      rows = none;
      columns = none;
      bucket_seconds = none;
      window_start = none;
      window_end = none;
      block_details = List.[];
    }

    unfoldable pub health_data : Option (ServiceHealth C) → HealthData C
    unfolding columns_of parse_time
    health_data given =
        let s = or_else given no_health in
        let blocks = map grid_block s.block_details in
        let row_count = number_or (or_else s.rows 7) 7 in
        record {
          total_success = or_else s.total_success 0;
          total_failure = or_else s.total_failure 0;
          success_rate = or_else s.success_rate no_rate;
          rows = row_count;
          columns = columns_of s.columns (length blocks) row_count;
          bucket_seconds = or_else s.bucket_seconds 0;
          window_start = parse_time s.window_start;
          window_end = parse_time s.window_end;
          block_details = blocks;
        }

    abbrev pub has_data : HealthData C → Bool
    has_data d = ltb 0 (d.total_success + d.total_failure)

number_or-positive : (n other : ℕ) → 1 ≤ other → 1 ≤ number_or n other
number_or-positive zero other h = h
number_or-positive (suc n) other h = omega arith

number_or-kept : (n : ℕ) → 1 ≤ n → number_or n 1 ≡ n
number_or-kept zero h = omega arith
number_or-kept (suc n) h = refl

columns_of-holds : (size rows : ℕ) → 1 ≤ rows → size ≤ rows * columns_of none size rows
unfolding columns_of
columns_of-holds size rows h =
    let enough = (ceil_div_lem size rows h).0 in
    let c = max 1 (ceil_div size rows) in
    let more : ceil_div size rows ≤ c = omega arith in
    let kept = number_or-kept c (omega arith) in rw kept (grind (arith, enough, more))

columns_of-positive : (columns : Option ℕ) (size rows : ℕ) → 1 ≤ columns_of columns size rows
unfolding columns_of
columns_of-positive columns size rows =
    number_or-positive (or_else columns (max 1 (ceil_div size rows))) 1 (omega arith)

-- The grid has a row and a column at least, and where the server sends no columns, it has a place for
-- every block.
pub health_data_lem :
    {C : Type 0} (h : Host) (no_rate unknown_rate : C) (s : ServiceHealth C)
    → let d = health_data h no_rate unknown_rate (some s) in
      (1 ≤ d.rows)
      × (1 ≤ d.columns)
      × (s.columns ≡ none → length d.block_details ≤ d.rows * d.columns)
unfolding health_data
health_data_lem h no_rate unknown_rate s =
    let size = length (map (grid_block h no_rate unknown_rate) s.block_details) in
    let rows = number_or (or_else s.rows 7) 7 in
    let some_row = number_or-positive (or_else s.rows 7) 7 (omega arith) in
    (
      some_row,
      columns_of-positive s.columns size rows,
      λ unsent. rw unsent (columns_of-holds size rows some_row),
    )
