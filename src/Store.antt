-- ===== src/Store.antt =====
-- The overview store, web/src/stores/useUsageStatsStore.ts: a cached payload, one active request, and
-- the answers of older requests that may still arrive. An `await` ends a step: loads, answers and
-- failures come in any order, and each runs to its end.
pub mod Hook
pub mod Invariant
pub mod Ordering
pub mod Tests
use daili_usage_keeper_north.Base.{
  ℕ, ◌+◌, String, Bool, true, false, not, Option, none, some, if◌then◌else◌, ◌<>◌, or_else, is_some,
  ltb, ◌==◌, str_eq, ◌&&◌,
}

-- What is thrown: an `ApiError`, another `Error`, or a value that is no error.
pub data Failure : Type 0 where
  api_error : ℕ → String → Failure
  plain_error : String → Failure
  no_error : Failure

pub record LoadOptions : Type 0 where
  pub force : Bool
  pub stale_time_ms : ℕ
  pub range : String
  pub start : Option String
  pub stop : Option String

-- A request on its way: the query that it was made for, and `controller.signal.aborted`.
pub record Flight : Type 0 where
  pub query_key : String
  pub aborted : Bool

-- Requests, their controllers and their promises are numbered; `next` is the next number.
pub record State (R : Type 0) : Type 0 where
  pub usage : Option R
  pub loading : Bool
  pub error : String
  pub last_refreshed_at : Option ℕ
  pub last_query_key : Option String
  pub active_request : Option ℕ
  pub active_request_key : Option String
  pub active_request_controller : Option ℕ
  pub flights : ℕ → Option Flight
  pub next : ℕ

-- The end of `loadUsageStats`: the cached payload serves, an active request is joined, or a new
-- request is made.
pub data Answer : Type 0 where
  cached : Answer
  joined : ℕ → Answer
  started : ℕ → Answer

abbrev pub is_id : Option ℕ → ℕ → Bool
is_id none i = false
is_id (some j) i = j == i

abbrev pub is_key : Option String → String → Bool
is_key none k = false
is_key (some j) k = str_eq j k

unfoldable pub build_query_key : String → Option String → Option String → String
build_query_key range start stop = range <> ":" <> or_else start "" <> ":" <> or_else stop ""

-- `lastRefreshedAt && … && now - lastRefreshedAt < staleTimeMs`; a time of 0 is falsy.
unfoldable pub is_recent : Option ℕ → ℕ → ℕ → Bool
is_recent none now stale = false
is_recent (some t) now stale = not (t == 0) && ltb now (t + stale)

-- `activeRequestController?.abort()`
abbrev pub abort : Option ℕ → (ℕ → Option Flight) → ℕ → Option Flight
abort none flights i = flights i
abort (some c) flights i =
    if c == i
    then elim (flights i) [ none ↦ none | some f ↦ some (record f { aborted = true }) ]
    else flights i

unfoldable pub message_of : Failure → String
message_of (api_error status message) = if status == 401 then "AUTH_REQUIRED" else message
message_of (plain_error message) = message
message_of no_error = "Failed to load usage overview"

module _ {R : Type 0} where
  abbrev pub initial : State R
  initial = record {
    usage = none;
    loading = false;
    error = "";
    last_refreshed_at = none;
    last_query_key = none;
    active_request = none;
    active_request_key = none;
    active_request_controller = none;
    flights = λ i. none;
    next = 0;
  }

  unfoldable pub is_fresh : LoadOptions → ℕ → String → State R → Bool
  unfolding is_recent
  is_fresh options now key s =
      not options.force
      && is_some s.usage
      && is_key s.last_query_key key
      && is_recent s.last_refreshed_at now options.stale_time_ms

  unfoldable pub start_request : String → State R → State R
  start_request key s =
      let supersedes = s.loading && is_some s.active_request in
      let flights = abort (if supersedes then s.active_request_controller else none) s.flights in
      record s {
        loading = true;
        error = "";
        active_request = some s.next;
        active_request_key = some key;
        active_request_controller = some s.next;
        flights = λ i.
            if s.next == i then some (record { query_key = key; aborted = false }) else flights i;
        next = s.next + 1;
      }

  unfoldable pub load_key : Bool → String → State R → State R × Answer
  unfolding start_request
  load_key fresh key s =
      if fresh
      then (s, cached)
      else if s.loading && is_some s.active_request && is_key s.active_request_key key
      then (s, joined (or_else s.active_request 0))
      else (start_request key s, started s.next)

  unfoldable pub load_usage_stats : LoadOptions → ℕ → State R → State R × Answer
  unfolding load_key is_fresh build_query_key
  load_usage_stats options now s =
      let key = build_query_key options.range options.start options.stop in
      load_key (is_fresh options now key s) key s

  -- A request that has settled is no longer on its way.
  abbrev pub landed : ℕ → State R → ℕ → Option Flight
  landed i s j = if i == j then none else s.flights j

  -- The `finally` block.
  unfoldable pub release : ℕ → State R → State R
  release i s =
      if is_id s.active_request_controller i
      then record s {
        active_request = none;
        active_request_key = none;
        active_request_controller = none;
        flights = landed i s;
      }
      else record s { flights = landed i s }

  -- The rest of the request after `await fetchUsageOverview(…)` returned a response; `key` is the
  -- query key that the closure holds.
  unfoldable pub on_response : ℕ → String → R → ℕ → State R → State R
  on_response i key response now s =
      if is_id s.active_request_controller i
      then release i (record s {
        usage = some response;
        loading = false;
        error = "";
        last_refreshed_at = some now;
        last_query_key = some key;
      })
      else release i s

  -- The `catch` block; `aborted` is the signal of the request's own controller.
  unfoldable pub on_failure : ℕ → Bool → Failure → State R → State R
  on_failure i aborted failure s =
      if aborted
      then release i s
      else if is_id s.active_request_controller i
      then release i (record s { loading = false; error = message_of failure })
      else release i s

  unfoldable pub clear_usage_stats : State R → State R
  clear_usage_stats s = record s {
    usage = none;
    error = "";
    loading = false;
    last_refreshed_at = none;
    last_query_key = none;
  }
