-- ===== src/Host.antt =====
-- What the browser gives the dashboard: dates, the time zone and the collation of strings. None of
-- it is code of this repository, so the definitions take it as an argument.
use daili_usage_keeper_north.Base.{ℕ, String, Bool, Option, ℤ}

pub record Host : Type 0 where
  -- `Date.parse(s)`, in milliseconds; `none` is NaN.
  pub parse_date : String → Option ℤ
  -- `getFullYear()`, `getMonth() + 1` and `getDate()` of `new Date(ms)`, in the local time zone.
  pub local_day : ℤ → ℕ × ℕ × ℕ
  -- `getHours()` and `getMinutes()` of `new Date(ms)`, in the local time zone.
  pub local_clock : ℤ → ℕ × ℕ
  -- `new Date(ms).toISOString()`.
  pub iso_string : ℤ → String
  -- `new Date(ms).toISOString().slice(0, 13)`: the date and the hour, in UTC.
  pub iso_hour : ℤ → String
  -- `a.localeCompare(b) <= 0`.
  pub collates : String → String → Bool
