-- ===== src/Api/Endpoints.antt =====
-- The endpoints of web/src/lib/api.ts: the request that each one sends, with the authorization that
-- `apiFetch` gives it, and what it makes of the reply. `credentials`, the signal and the body of
-- `updatePricing` are left out.
use daili_usage_keeper_north.Base.{
  ◌≡◌, String, Option, none, some, [], ◌∷◌, if◌then◌else◌, ◌<>◌, decimal, Dict,
}
use daili_usage_keeper_north.Api.{
  Storage, Outcome, ok, thrown, Reply, is_ok, build_headers, api_path, parse_api_error, request,
  get_stored_token,
}
use daili_usage_keeper_north.Api.Query.{FetchUsageEventsOptions, range_params, event_params}
use daili_usage_keeper_north.Api.Token.{request-storage}

pub record Call : Type 0 where
  pub method : String
  pub path : String
  pub query : Dict String
  pub authorization : Option String

-- A request, and after its reply the storage and the result.
pub record Exchange (P : Type 0) : Type 0 where
  pub call : Call
  pub storage : Storage
  pub outcome : Outcome P

unfoldable pub api_fetch : Option String → String → String → Dict String → Storage → Call
unfolding build_headers api_path
api_fetch base method path query s = record {
  method = method;
  path = api_path base path;
  query = query;
  authorization = build_headers none s;
}

-- `base` is the base path; a reply of `none` is a rejected `fetch`.
module _ {P : Type 0} (base : Option String) (reply : Option (Reply P)) (s : Storage) where
  unfoldable pub exchange : String → String → Dict String → String → Exchange P
  unfolding api_fetch
  exchange method path query failed =
      let done = request reply failed s in
      record { call = api_fetch base method path query s; storage = done.0; outcome = done.1 }

  unfoldable pub fetch_usage_overview : String → Option String → Option String → Exchange P
  unfolding exchange range_params
  fetch_usage_overview range start stop =
      exchange "GET" "/usage/overview" (range_params range start stop)
        "Failed to load usage overview: "

  unfoldable pub fetch_usage_event_filter_options : Exchange P
  unfolding exchange
  fetch_usage_event_filter_options =
      exchange "GET" "/usage/events/filters" [] "Failed to load usage event filters: "

  unfoldable pub fetch_usage_events :
      String → Option String → Option String → FetchUsageEventsOptions → Exchange P
  unfolding exchange event_params
  fetch_usage_events range start stop options =
      exchange "GET" "/usage/events" (event_params range start stop options)
        "Failed to load usage events: "

  unfoldable pub fetch_usage_identities : Exchange P
  unfolding exchange
  fetch_usage_identities = exchange "GET" "/usage/identities" [] "Failed to load usage identities: "

  unfoldable pub fetch_usage_analysis : String → Option String → Option String → Exchange P
  unfolding exchange range_params
  fetch_usage_analysis range start stop =
      exchange "GET" "/usage/analysis" (range_params range start stop)
        "Failed to load usage analysis: "

  unfoldable pub fetch_used_models : Exchange P
  unfolding exchange
  fetch_used_models = exchange "GET" "/models/used" [] "Failed to load used models: "

  unfoldable pub fetch_status : Exchange P
  unfolding exchange
  fetch_status = exchange "GET" "/status" [] "Failed to load status: "

  unfoldable pub trigger_sync : Exchange P
  unfolding exchange
  trigger_sync = exchange "POST" "/sync" [] "Failed to start sync: "

  unfoldable pub fetch_pricing : Exchange P
  unfolding exchange
  fetch_pricing = exchange "GET" "/pricing" [] "Failed to load pricing: "

  unfoldable pub update_pricing : Exchange P
  unfolding exchange
  update_pricing = exchange "PUT" "/pricing" [] "Failed to update pricing: "

-- No body is read.
unfoldable pub delete_pricing :
    Option String → Option (Reply (Unit {0})) → Storage → String → Exchange (Unit {0})
unfolding api_fetch parse_api_error
delete_pricing base reply s model =
    let done : Storage × Outcome (Unit {0}) = elim reply [
      | none ↦ (s, thrown)
      | some r ↦
          if is_ok r.status
          then (s, ok tt)
          else parse_api_error r ("Failed to delete pricing: " <> decimal r.status) s
    ] in
    record {
      call = api_fetch base "DELETE" "/pricing" (("model", model) ∷ []) s;
      storage = done.0;
      outcome = done.1;
    }

no_authorization : (s : Storage) → get_stored_token s ≡ none → build_headers none s ≡ none
unfolding build_headers
no_authorization s e = rw (build_headers, e)

-- After an endpoint was answered 401, whatever is requested next bears no authorization.
exchange-signed_out :
    {P Q : Type 0} (base : Option String) (reply : Reply P) (s : Storage) (method path : String)
    (query : Dict String) (failed : String)
    → reply.status ≡ 401
    → (other : Option (Reply Q)) (method' path' : String) (query' : Dict String) (failed' : String)
    → (exchange base other
        (exchange base (some reply) s method path query failed).storage
        method'
        path'
        query'
        failed').call.authorization
      ≡ none
unfolding exchange
exchange-signed_out base reply s method path query failed e other method' path' query' failed' =
    no_authorization (request (some reply) failed s).0 ((request-storage reply failed s).0 e)
