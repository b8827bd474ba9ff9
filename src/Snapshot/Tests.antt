-- ===== src/Snapshot/Tests.antt =====
-- The theorems about snapshots at a concrete one.
use daili_usage_keeper_north.Base.{
  ◌≡◌, ◌↔◌, refl, String, Bool, true, false, some, [], ◌∷◌, lookup, filter, length, str_eq, ℤ, pos,
}
use daili_usage_keeper_north.Usage.Window.{hours_4}
use daili_usage_keeper_north.Usage.Tests.{host, parse}
use daili_usage_keeper_north.Snapshot.{
  UsageEvent, SnapshotDetail, UsageSnapshot, no_totals, collect_usage_events, latest_timestamp,
  filter_usage_snapshot,
}
use daili_usage_keeper_north.Snapshot.Tally.{tally, totals_of_api, HoldsAll, sum_of_tokens}
use daili_usage_keeper_north.Snapshot.Range.{LiesIn, IsLatest, is_in}
use daili_usage_keeper_north.Snapshot.Laws.{in_range, filter_usage_snapshot_lem}

abbrev detail : String → Bool → ℤ → SnapshotDetail
detail timestamp failed n = record {
  timestamp = timestamp;
  latency_ms = pos 5;
  source = "s";
  auth_index = "0";
  failed = failed;
  tokens = record {
    input_tokens = n;
    output_tokens = pos 1;
    reasoning_tokens = pos 0;
    cached_tokens = pos 0;
    total_tokens = n;
  };
}

abbrev usage : UsageSnapshot
usage = record {
  totals = no_totals;
  requests_by_day = [];
  requests_by_hour = [];
  tokens_by_day = [];
  tokens_by_hour = [];
  apis =
      (
        "a",
        record {
          totals = no_totals;
          models =
              (
                "m",
                record {
                  totals = no_totals;
                  details = some (detail "1000" false (pos 3) ∷ detail "9000000" true (pos 4) ∷ []);
                },
              )
              ∷ [];
        },
      )
      ∷ [];
}

abbrev latest : ℤ
latest = pos 9_000_000

latest_is : latest_timestamp host (collect_usage_events host usage) ≡ some latest
unfolding latest_timestamp collect_usage_events parse
latest_is = refl

filter_usage_snapshot_example :
    ((filter_usage_snapshot host latest (pos 0) usage hours_4).totals
      ≡ tally (in_range host latest (pos 0) latest usage hours_4))
    × ((j : String)
        → totals_of_api (lookup j (filter_usage_snapshot host latest (pos 0) usage hours_4).apis)
          ≡ tally (
              filter
                (λ e. str_eq e.api_name j)
                (in_range host latest (pos 0) latest usage hours_4)))
    × HoldsAll
        (filter_usage_snapshot host latest (pos 0) usage hours_4)
        (length (in_range host latest (pos 0) latest usage hours_4))
        (sum_of_tokens (in_range host latest (pos 0) latest usage hours_4))
    × ((e : UsageEvent)
        → (is_in host hours_4 latest (pos 0) latest e ≡ true)
          ↔ LiesIn host hours_4 latest (pos 0) latest e)
    × IsLatest host latest (collect_usage_events host usage)
filter_usage_snapshot_example =
    filter_usage_snapshot_lem host latest (pos 0) latest usage hours_4 refl latest_is
