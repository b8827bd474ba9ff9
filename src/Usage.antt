-- ===== src/Usage.antt =====
-- The payload of the usage endpoint, as web/src/lib/types.ts and web/src/utils/usage.ts declare it,
-- and the helpers of utils/usage.ts that read one row.
pub mod Details
pub mod Rebuild
pub mod Window
pub mod Latency
pub mod Health
pub mod Stats
pub mod Chart
pub mod Series
mod Examples
pub mod Tests
use daili_usage_keeper_north.Base.{
  ℕ, ◌+◌, String, Bool, true, false, Option, none, some, List, [], Dict, ℤ, pos, ◌+ℤ◌, JsNumber,
  num, to_number, to_number_of_optional, max_ℤ, ltb_ℤ, if◌then◌else◌, or_else, ◌<>◌, decimal, pad,
}
use daili_usage_keeper_north.Host.{Host}

-- The token counts of a row. The code reads `cache_tokens` too, which only some backends send.
pub record Tokens : Type 0 where
  pub input_tokens : JsNumber
  pub output_tokens : JsNumber
  pub reasoning_tokens : JsNumber
  pub cached_tokens : JsNumber
  pub cache_tokens : Option JsNumber
  pub total_tokens : JsNumber

pub record Detail : Type 0 where
  pub timestamp : String
  pub latency_ms : JsNumber
  pub source : String
  pub source_raw : Option String
  pub source_display : Option String
  pub source_type : Option String
  pub source_key : Option String
  pub auth_index : String
  pub failed : Bool
  pub tokens : Tokens

pub record Model : Type 0 where
  pub total_requests : JsNumber
  pub success_count : JsNumber
  pub failure_count : JsNumber
  pub total_tokens : JsNumber
  pub details : Option (List Detail)

pub record Api : Type 0 where
  pub display_name : Option String
  pub total_requests : JsNumber
  pub success_count : JsNumber
  pub failure_count : JsNumber
  pub total_tokens : JsNumber
  pub models : Option (Dict Model)

-- `UsagePayload = Partial<UsageSnapshot>`: every field may be missing.
pub record Payload : Type 0 where
  pub total_requests : Option JsNumber
  pub success_count : Option JsNumber
  pub failure_count : Option JsNumber
  pub total_tokens : Option JsNumber
  pub requests_by_day : Option (Dict JsNumber)
  pub requests_by_hour : Option (Dict JsNumber)
  pub tokens_by_day : Option (Dict JsNumber)
  pub tokens_by_hour : Option (Dict JsNumber)
  pub apis : Option (Dict Api)

-- A row with the names of its API and model beside it: `{ ...detail, __apiName, … }`.
pub record DetailRecord : Type 0 where
  pub detail : Detail
  pub open detail use *
  pub api_name : Option String
  pub api_display_name : Option String
  pub model_name : Option String
  pub timestamp_ms : Option ℤ

-- `detail.__timestampMs ?? 0`
abbrev pub time_of : DetailRecord → ℤ
time_of d = or_else d.timestamp_ms (pos 0)

-- `Math.max(toNumber(tokens.cached_tokens), toNumber(tokens.cache_tokens))`
abbrev pub cached_of : Tokens → ℤ
cached_of t = max_ℤ (to_number t.cached_tokens) (to_number_of_optional t.cache_tokens)

abbrev pub no_tokens : Tokens
no_tokens = record {
  input_tokens = num (pos 0);
  output_tokens = num (pos 0);
  reasoning_tokens = num (pos 0);
  cached_tokens = num (pos 0);
  cache_tokens = none;
  total_tokens = num (pos 0);
}

-- The argument is `detail.tokens`, which a partial row may lack.
unfoldable pub extract_total_tokens : Option Tokens → ℤ
unfolding to_number to_number_of_optional
extract_total_tokens given =
    let tokens = or_else given no_tokens in
    let explicit = to_number tokens.total_tokens in
    if ltb_ℤ (pos 0) explicit
    then explicit
    else to_number tokens.input_tokens
      +ℤ to_number tokens.output_tokens
      +ℤ to_number tokens.reasoning_tokens
      +ℤ cached_of tokens

abbrev pub tokens_of : DetailRecord → ℤ
tokens_of d = extract_total_tokens (some d.tokens)

module _ (h : Host) where
  unfoldable pub format_local_day_key : ℤ → String
  unfolding pad decimal
  format_local_day_key ms =
      let (year, month, day) = h.local_day ms in decimal year <> "-" <> pad month <> "-" <> pad day

  unfoldable pub start_of_day_key : String → String
  unfolding format_local_day_key
  start_of_day_key timestamp = elim (h.parse_date timestamp) [
    | none ↦ ""
    | some ms ↦ format_local_day_key ms
  ]

  unfoldable pub format_hour_bucket_key : ℤ → String
  format_hour_bucket_key ms = h.iso_hour ms <> ":00:00Z"

  unfoldable pub start_of_hour_key : String → String
  unfolding format_hour_bucket_key
  start_of_hour_key timestamp = elim (h.parse_date timestamp) [
    | none ↦ ""
    | some ms ↦ format_hour_bucket_key ms
  ]
