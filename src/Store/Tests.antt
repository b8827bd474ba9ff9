-- ===== src/Store/Tests.antt =====
-- Two loads that overlap: the first is aborted, the second one is shown.
use daili_usage_keeper_north.Base.{ℕ, ◌≡◌, refl, String, true, false, none, some, [], ◌∷◌, arith}
use daili_usage_keeper_north.Store.{
  Failure, plain_error, api_error, LoadOptions, Flight, State, started, initial, load_usage_stats,
  build_query_key, on_response, on_failure, clear_usage_stats, message_of, cached, joined, Answer,
}
use daili_usage_keeper_north.Base.{if◌then◌else◌, ◌+◌}
use daili_usage_keeper_north.Page.Sync.{returned, Action}
use daili_usage_keeper_north.Store.Hook.{UseUsageDataOptions, is_known_range, load_usage}
use daili_usage_keeper_north.Store.Invariant.{
  Reach, here, next, load, IsConsistent, Reach-IsConsistent,
}
use daili_usage_keeper_north.Store.Ordering.{
  view, failure, settle_all, last_load_wins, loading-ends, Serves, load_usage_stats-Serves,
  on_response-clear,
}

abbrev options_of : String → LoadOptions
options_of range = record {
  force = false;
  stale_time_ms = 60_000;
  range = range;
  start = none;
  stop = none;
}

-- The responses of the tests are the texts of the queries that they answer.
abbrev same : String → String
same r = r

abbrev first : State String
first = (load_usage_stats (options_of "4h") 5 initial).0

abbrev second : State String
second = (load_usage_stats (options_of "7d") 6 first).0

first_is_aborted : second.flights 0 ≡ some (record { query_key = "4h::"; aborted = true })
unfolding load_usage_stats
first_is_aborted = refl

second_is_joined : (load_usage_stats (options_of "7d") 7 second).1 ≡ joined 1
unfolding load_usage_stats
second_is_joined = refl

then_cached :
    (load_usage_stats (options_of "7d") 9 (on_response 1 "7d::" "7d::" 8 second)).1 ≡ cached
unfolding load_usage_stats on_response daili_usage_keeper_north.Store.release
then_cached = refl

reached : Reach same second
reached = next (next here (load (options_of "4h") 5 initial)) (load (options_of "7d") 6 first)

Reach-IsConsistent_example : IsConsistent same second
Reach-IsConsistent_example = Reach-IsConsistent same reached

last_load_wins_example :
    let waiting = settle_all (failure 0 true (plain_error "abort") ∷ []) second in
    (view waiting ≡ record (view first) { loading = true; error = "" })
    × (view (on_response 1 "7d::" "7d::" 8 waiting) ≡ record {
      usage = some "7d::";
      loading = false;
      error = "";
      last_refreshed_at = some 8;
      last_query_key = some "7d::";
    })
    × (view (on_failure 1 false (api_error 401 "no") waiting)
        ≡ record (view first) { loading = false; error = "AUTH_REQUIRED" })
unfolding load_usage_stats message_of
last_load_wins_example =
    last_load_wins (options_of "7d") 6 first 1 (failure 0 true (plain_error "abort") ∷ []) "7d::"
      (api_error 401 "no") 8 refl (omega arith)

loading-ends_example :
    (c : ℕ) × (k : String) × (second.flights c ≡ some (record { query_key = k; aborted = false }))
    × ((r : String) (now : ℕ) → (on_response c k r now second).loading ≡ false)
    × ((f : Failure) → (on_failure c false f second).loading ≡ false)
unfolding load_usage_stats
loading-ends_example = loading-ends same second reached refl

load_usage_stats-Serves_example :
    Serves same
      (build_query_key "7d" none none)
      second
      (load_usage_stats (options_of "7d") 7 second).1
load_usage_stats-Serves_example = load_usage_stats-Serves same (options_of "7d") 7 second reached

on_response-clear_example :
    (c : ℕ) × (k : String) × (second.flights c ≡ some (record { query_key = k; aborted = false }))
    × ((clear_usage_stats second).usage ≡ none)
    × ((on_response c k "7d::" 9 (clear_usage_stats second)).usage ≡ some "7d::")
unfolding load_usage_stats
on_response-clear_example = on_response-clear same second "7d::" 9 reached refl

-- Two stores: one counts all requests, the other one those for a range that the server knows.
abbrev count_all : LoadOptions → Action ℕ Unit
count_all q n = (n + 1, returned tt)

abbrev count_known : LoadOptions → Action ℕ Unit
count_known q n = if is_known_range q.range then (n + 1, returned tt) else (n, returned tt)

abbrev custom_options : UseUsageDataOptions
custom_options = record {
  range = some "custom";
  custom_start = some " 2024-01-05";
  custom_end = some "2024-01-09";
  enabled = none;
}

custom_options-counted : load_usage count_all none custom_options 0 ≡ (1, returned tt)
unfolding load_usage daili_usage_keeper_north.Page.Dates.Text.match_date
    daili_usage_keeper_north.Base.trim
custom_options-counted = refl
