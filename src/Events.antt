-- ===== src/Events.antt =====
-- The table of request events, web/src/components/usage/RequestEventsDetailsCard.tsx.
pub mod Csv
pub mod Paging
pub mod Tests
use daili_usage_keeper_north.Base.{
  ℕ, ◌+◌, String, Bool, true, false, Option, none, some, List, [], ◌∷◌, ◌++◌, map, if◌then◌else◌,
  trim, text_or, or_else, decimal, ◌<>◌, ℤ, pos, negsuc, JsNumber, num, to_number, max_ℤ, str_eq,
  ◌==◌, is_blank, is_some, any,
}
use daili_usage_keeper_north.Host.{Host}

-- `UsageEventTokens` and `UsageEvent` of web/src/lib/types.ts.
pub record EventTokens : Type 0 where
  pub input_tokens : JsNumber
  pub output_tokens : JsNumber
  pub reasoning_tokens : JsNumber
  pub cached_tokens : JsNumber
  pub total_tokens : JsNumber

pub record Event : Type 0 where
  pub id : Option ℕ
  pub timestamp : String
  pub model : String
  pub source : String
  pub source_raw : Option String
  pub source_type : Option String
  pub source_key : Option String
  pub auth_index : Option String
  pub failed : Bool
  pub latency_ms : JsNumber
  pub tokens : EventTokens

-- `timestampLabel`, which only the markup shows, is left out.
pub record Row : Type 0 where
  pub id : String
  pub timestamp : String
  pub timestamp_ms : ℤ
  pub model : String
  pub source_raw : String
  pub source : String
  pub source_type : String
  pub auth_index : String
  pub failed : Bool
  pub latency_ms : Option ℤ
  pub input_tokens : ℤ
  pub output_tokens : ℤ
  pub reasoning_tokens : ℤ
  pub cached_tokens : ℤ
  pub total_tokens : ℤ

-- `Math.max(toNumber(n), 0)`
abbrev pub nonneg : JsNumber → ℤ
nonneg n = max_ℤ (to_number n) (pos 0)

-- `Number.isFinite(event.latency_ms) ? event.latency_ms : null`
unfoldable pub latency_of : JsNumber → Option ℤ
latency_of (num n) = some n
latency_of _ = none

-- `null`, `undefined` and `''` give '-', and so does a text of spaces.
unfoldable pub auth_index_of : Option String → String
unfolding trim
auth_index_of none = "-"
auth_index_of (some s) = if is_blank s then "-" else text_or (trim s) "-"

unfoldable pub id_of : Event → ℕ → (model source auth : String) → String
unfolding decimal
id_of e index model source auth =
    let built =
      e.timestamp <> "-" <> model <> "-" <> source <> "-" <> auth <> "-" <> decimal index in
    elim e.id [ none ↦ built | some n ↦ if n == 0 then built else decimal n ]

module _ (h : Host) where
  -- One row; `index` is the place of the event in the page.
  unfoldable pub row_of : ℕ → Event → Row
  unfolding to_number latency_of auth_index_of id_of trim
  row_of index e =
      let source_raw = text_or (trim (or_else e.source_raw "")) (trim e.source) in
      let auth_index = auth_index_of e.auth_index in
      let source = text_or (trim e.source) "-" in
      let model = text_or (trim e.model) "-" in
      record {
        id = id_of e index model (text_or source_raw source) auth_index;
        timestamp = e.timestamp;
        timestamp_ms = or_else (h.parse_date e.timestamp) (pos 0);
        model = model;
        source_raw = text_or source_raw "-";
        source = source;
        source_type = trim (or_else e.source_type "");
        auth_index = auth_index;
        failed = e.failed;
        latency_ms = latency_of e.latency_ms;
        input_tokens = nonneg e.tokens.input_tokens;
        output_tokens = nonneg e.tokens.output_tokens;
        reasoning_tokens = nonneg e.tokens.reasoning_tokens;
        cached_tokens = nonneg e.tokens.cached_tokens;
        total_tokens = nonneg e.tokens.total_tokens;
      }

  unfoldable pub rows_from : ℕ → List Event → List Row
  unfolding row_of
  rows_from index [] = []
  rows_from index (e ∷ es) = row_of index e ∷ rows_from (index + 1) es

-- `rows.some((row) => row.latencyMs !== null)`
abbrev pub has_latency_data : List Row → Bool
has_latency_data rows = any (λ r. is_some r.latency_ms) rows
