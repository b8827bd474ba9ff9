-- ===== src/Cards/Tables/Apis.antt =====
-- The table of the APIs, whose numbers are without NaN: its rows are those of the APIs, in order.
use daili_usage_keeper_north.Base.{String, Bool, List, IsSorted, IsOrder, sort-IsSorted, sort-perm}
use mathlib.Core.List.{Perm}
use daili_usage_keeper_north.Cards.Tables.{
  SortDir, Sorting, in_dir, Arithmetic, ApiSortKey, by_endpoint, by_total_requests, by_total_tokens,
  by_total_cost, ApiStat, compare_apis, sorted_apis,
}
use daili_usage_keeper_north.Cards.Tables.Laws.{in_dir-IsOrder, order_by}

module _ {N : Type 0} (collates : String → String → Bool) (n : Arithmetic N)
    (names : IsOrder collates) (order : IsOrder n.leq) where
  compare_apis-IsOrder :
      (key : ApiSortKey) (dir : SortDir) → IsOrder (compare_apis collates n key dir)
  unfolding compare_apis
  compare_apis-IsOrder by_endpoint dir =
      order_by (λ a. a.display_name) (in_dir collates dir) (in_dir-IsOrder collates names dir)
  compare_apis-IsOrder by_total_requests dir =
      order_by (λ a. a.total_requests) (in_dir n.leq dir) (in_dir-IsOrder n.leq order dir)
  compare_apis-IsOrder by_total_tokens dir =
      order_by (λ a. a.total_tokens) (in_dir n.leq dir) (in_dir-IsOrder n.leq order dir)
  compare_apis-IsOrder by_total_cost dir =
      order_by (λ a. a.total_cost) (in_dir n.leq dir) (in_dir-IsOrder n.leq order dir)

  sorted_apis_lem :
      (s : Sorting ApiSortKey) (apis : List (ApiStat N))
      → Perm (sorted_apis collates n s apis) apis
        × IsSorted (compare_apis collates n s.sort_key s.sort_dir) (sorted_apis collates n s apis)
  unfolding sorted_apis
  sorted_apis_lem s apis =
      let le = compare_apis collates n s.sort_key s.sort_dir in
      (sort-perm le apis, sort-IsSorted le (compare_apis-IsOrder s.sort_key s.sort_dir) apis)
