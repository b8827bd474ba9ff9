-- ===== src/Usage/Rebuild.antt =====
-- `buildUsageFromDetails` of web/src/utils/usage.ts: the payload that a list of rows adds up to.
pub mod Counts
pub mod RoundTrip
use daili_usage_keeper_north.Base.{
  ℕ, ◌+◌, String, Bool, true, false, Option, none, some, List, [], ◌∷◌, ◌++◌, map, foldl, Dict,
  update, ℤ, pos, ◌+ℤ◌, num, to_number, or_else, if◌then◌else◌, optional_text_or,
}
use daili_usage_keeper_north.Host.{Host}
use daili_usage_keeper_north.Usage.{
  Tokens, Detail, Model, Api, Payload, DetailRecord, cached_of, extract_total_tokens, tokens_of,
  start_of_day_key, start_of_hour_key,
}

-- The four counters that the payload, each API and each model carry.
pub record Counters : Type 0 where
  pub total_requests : ℕ
  pub success_count : ℕ
  pub failure_count : ℕ
  pub total_tokens : ℤ

pub record BuiltModel : Type 0 where
  pub counters : Counters
  pub details : List Detail

pub record BuiltApi : Type 0 where
  pub display_name : String
  pub counters : Counters
  pub models : Dict BuiltModel

pub record Built : Type 0 where
  pub counters : Counters
  pub requests_by_day : Dict ℕ
  pub requests_by_hour : Dict ℕ
  pub tokens_by_day : Dict ℤ
  pub tokens_by_hour : Dict ℤ
  pub apis : Dict BuiltApi

abbrev pub no_counters : Counters
no_counters = record {
  total_requests = 0;
  success_count = 0;
  failure_count = 0;
  total_tokens = pos 0;
}

-- The increments that the code makes for one row, at each of the three levels.
unfoldable pub count_row : Counters → DetailRecord → Counters
count_row c d = record {
  total_requests = c.total_requests + 1;
  success_count = if d.failed then c.success_count else c.success_count + 1;
  failure_count = if d.failed then c.failure_count + 1 else c.failure_count;
  total_tokens = c.total_tokens +ℤ tokens_of d;
}

-- `detail.__apiName || 'unknown'` and `detail.__modelName || 'unknown'`
abbrev pub api_key : DetailRecord → String
api_key d = optional_text_or d.api_name "unknown"

abbrev pub model_key : DetailRecord → String
model_key d = optional_text_or d.model_name "unknown"

-- The row that is pushed.
unfoldable pub rebuild_detail : DetailRecord → Detail
unfolding to_number extract_total_tokens
rebuild_detail d = record {
  timestamp = d.timestamp;
  latency_ms = num (to_number d.latency_ms);
  source = d.source;
  source_raw = some (or_else d.source_raw "");
  source_display = some (or_else d.source_display "");
  source_type = some (or_else d.source_type "");
  source_key = some (or_else d.source_key "");
  auth_index = d.auth_index;
  failed = d.failed;
  tokens = record {
    input_tokens = num (to_number d.tokens.input_tokens);
    output_tokens = num (to_number d.tokens.output_tokens);
    reasoning_tokens = num (to_number d.tokens.reasoning_tokens);
    cached_tokens = num (cached_of d.tokens);
    cache_tokens = none;
    total_tokens = num (tokens_of d);
  };
}

unfoldable pub add_to_model : DetailRecord → Option BuiltModel → BuiltModel
unfolding count_row rebuild_detail
add_to_model d given =
    let model = or_else given (record { counters = no_counters; details = [] }) in
    record {
      counters = count_row model.counters d;
      details = model.details ++ rebuild_detail d ∷ [];
    }

unfoldable pub add_to_api : DetailRecord → Option BuiltApi → BuiltApi
unfolding count_row add_to_model update
add_to_api d given =
    let api = or_else given (record {
      display_name = optional_text_or d.api_display_name (api_key d);
      counters = no_counters;
      models = [];
    }) in
    record {
      display_name = api.display_name;
      counters = count_row api.counters d;
      models = update (model_key d) (add_to_model d) api.models;
    }

-- `map[key] = (map[key] ?? 0) + amount`
abbrev pub bump : Option ℕ → ℕ
bump o = or_else o 0 + 1

abbrev pub bump_by : ℤ → Option ℤ → ℤ
bump_by v o = or_else o (pos 0) +ℤ v

abbrev pub empty : Built
empty = record {
  counters = no_counters;
  requests_by_day = [];
  requests_by_hour = [];
  tokens_by_day = [];
  tokens_by_hour = [];
  apis = [];
}

module _ (h : Host) where
  abbrev pub day_of : DetailRecord → String
  day_of d = start_of_day_key h d.timestamp

  abbrev pub hour_of : DetailRecord → String
  hour_of d = start_of_hour_key h d.timestamp

  -- One round of the loop.
  unfoldable pub add_detail : Built → DetailRecord → Built
  unfolding count_row update add_to_api start_of_day_key start_of_hour_key
  add_detail usage d = record {
    counters = count_row usage.counters d;
    requests_by_day = update (day_of d) bump usage.requests_by_day;
    requests_by_hour = update (hour_of d) bump usage.requests_by_hour;
    tokens_by_day = update (day_of d) (bump_by (tokens_of d)) usage.tokens_by_day;
    tokens_by_hour = update (hour_of d) (bump_by (tokens_of d)) usage.tokens_by_hour;
    apis = update (api_key d) (add_to_api d) usage.apis;
  }

  unfoldable pub build_usage_from_details : List DetailRecord → Built
  unfolding add_detail
  build_usage_from_details details = foldl add_detail empty details

-- The built payload as the type `UsagePayload`, which the other functions read.
abbrev pub model_payload : BuiltModel → Model
model_payload m = record {
  total_requests = num (pos m.counters.total_requests);
  success_count = num (pos m.counters.success_count);
  failure_count = num (pos m.counters.failure_count);
  total_tokens = num m.counters.total_tokens;
  details = some m.details;
}

abbrev pub api_payload : BuiltApi → Api
api_payload a = record {
  display_name = some a.display_name;
  total_requests = num (pos a.counters.total_requests);
  success_count = num (pos a.counters.success_count);
  failure_count = num (pos a.counters.failure_count);
  total_tokens = num a.counters.total_tokens;
  models = some (map (λ e. (e.0, model_payload e.1)) a.models);
}

abbrev pub to_payload : Built → Payload
to_payload u = record {
  total_requests = some (num (pos u.counters.total_requests));
  success_count = some (num (pos u.counters.success_count));
  failure_count = some (num (pos u.counters.failure_count));
  total_tokens = some (num u.counters.total_tokens);
  requests_by_day = some (map (λ e. (e.0, num (pos e.1))) u.requests_by_day);
  requests_by_hour = some (map (λ e. (e.0, num (pos e.1))) u.requests_by_hour);
  tokens_by_day = some (map (λ e. (e.0, num e.1)) u.tokens_by_day);
  tokens_by_hour = some (map (λ e. (e.0, num e.1)) u.tokens_by_hour);
  apis = some (map (λ e. (e.0, api_payload e.1)) u.apis);
}
