-- ===== src/Cards/Tables.antt =====
-- The tables of ModelStatsCard.tsx and ApiDetailsCard.tsx that a click on a header sorts, and the rows
-- of the second that a click unfolds. N is the type of the numbers; what the code asks of them is in
-- `Arithmetic`, and `collates a b` is `a.localeCompare(b) <= 0`.
pub mod Order
pub mod Laws
pub mod Apis
pub mod Expanded
pub mod Headers
use daili_usage_keeper_north.Base.{
  ℕ, String, Bool, true, false, not, Option, none, some, List, map, filter, any, sort, ◌==◌, ◌++◌,
  [], ◌∷◌, str_eq, if◌then◌else◌,
}

pub data SortDir : Type 0 where
  asc desc : SortDir

-- The state of a table with columns K.
pub record Sorting (K : Type 0) : Type 0 where
  pub sort_key : K
  pub sort_dir : SortDir

abbrev pub flip_dir : SortDir → SortDir
flip_dir asc = desc
flip_dir desc = asc

-- `index` tells the columns apart; the one of the names begins with A.
unfoldable pub handle_sort : {K : Type 0} → (K → ℕ) → (K → Bool) → K → Sorting K → Sorting K
handle_sort index is_name key s =
    if index s.sort_key == index key
    then record s { sort_dir = flip_dir s.sort_dir }
    else record { sort_key = key; sort_dir = if is_name key then asc else desc }

pub data AriaSort : Type 0 where
  unsorted ascending descending : AriaSort

abbrev pub aria_of : SortDir → AriaSort
aria_of asc = ascending
aria_of desc = descending

unfoldable pub aria_sort : {K : Type 0} → (K → ℕ) → Sorting K → K → AriaSort
aria_sort index s key = if index s.sort_key == index key then aria_of s.sort_dir else unsorted

-- `dir * compare(a, b) <= 0`, where `le a b` is `compare(a, b) <= 0`.
abbrev pub in_dir {ℓ} : {A : Type ℓ} → (A → A → Bool) → SortDir → A → A → Bool
in_dir le asc a b = le a b
in_dir le desc a b = le b a

-- The rows without a number come last, whichever the direction.
abbrev pub missing_last {ℓ} : {N : Type ℓ} → (N → N → Bool) → SortDir → Option N → Option N → Bool
missing_last le dir (some a) (some b) = in_dir le dir a b
missing_last le dir none (some b) = false
missing_last le dir a none = true

pub record Arithmetic (N : Type 0) : Type 0 where
  pub is_finite : N → Bool
  pub is_positive : N → Bool
  -- `(part / whole) * 100`
  pub percent : N → N → N
  pub hundred : N
  -- `x - y <= 0`, of finite numbers
  pub leq : N → N → Bool

pub data SortKey : Type 0 where
  by_model by_requests by_tokens by_cost by_success_rate : SortKey
  by_average_latency by_total_latency : SortKey

abbrev pub key_index : SortKey → ℕ
key_index by_model = 0
key_index by_requests = 1
key_index by_tokens = 2
key_index by_cost = 3
key_index by_success_rate = 4
key_index by_average_latency = 5
key_index by_total_latency = 6

abbrev pub is_model_key : SortKey → Bool
is_model_key by_model = true
is_model_key _ = false

-- The fields of `ModelStat` that the table sorts by or shows.
pub record ModelStat (N : Type 0) : Type 0 where
  pub model : String
  pub requests : N
  pub success_count : N
  pub tokens : N
  pub cost : N
  pub average_latency_ms : Option N
  pub total_latency_ms : Option N

pub record ModelStatWithRate (N : Type 0) : Type 0 where
  pub stat : ModelStat N
  pub success_rate : N

-- What a column holds: texts, or numbers that may be missing.
pub data Column (A N : Type 0) : Type 0 where
  texts : (A → String) → Column A N
  numbers : (A → Option N) → Column A N

module _ {N : Type 0} (n : Arithmetic N) where
  abbrev pub with_rate : ModelStat N → ModelStatWithRate N
  with_rate s = record {
    stat = s;
    success_rate =
        if n.is_positive s.requests then n.percent s.success_count s.requests else n.hundred;
  }

  -- A value that is no finite number counts as none.
  abbrev pub valid : Option N → Option N
  valid none = none
  valid (some v) = if n.is_finite v then some v else none

  unfoldable pub column_at : SortKey → Column (ModelStatWithRate N) N
  column_at by_model = texts (λ r. r.stat.model)
  column_at by_requests = numbers (λ r. valid (some r.stat.requests))
  column_at by_tokens = numbers (λ r. valid (some r.stat.tokens))
  column_at by_cost = numbers (λ r. valid (some r.stat.cost))
  column_at by_success_rate = numbers (λ r. valid (some r.success_rate))
  column_at by_average_latency = numbers (λ r. valid r.stat.average_latency_ms)
  column_at by_total_latency = numbers (λ r. valid r.stat.total_latency_ms)

module _ {N : Type 0} (collates : String → String → Bool) (n : Arithmetic N) where
  unfoldable pub compare_at : {A : Type 0} → Column A N → SortDir → A → A → Bool
  compare_at (texts f) dir a b = in_dir collates dir (f a) (f b)
  compare_at (numbers f) dir a b = missing_last n.leq dir (f a) (f b)

  unfoldable pub sorted_models : Sorting SortKey → List (ModelStat N) → List (ModelStatWithRate N)
  unfolding sort compare_at column_at
  sorted_models s stats =
      sort (compare_at (column_at n s.sort_key) s.sort_dir) (map (with_rate n) stats)

pub data ApiSortKey : Type 0 where
  by_endpoint by_total_requests by_total_tokens by_total_cost : ApiSortKey

abbrev pub api_key_index : ApiSortKey → ℕ
api_key_index by_endpoint = 0
api_key_index by_total_requests = 1
api_key_index by_total_tokens = 2
api_key_index by_total_cost = 3

abbrev pub is_endpoint_key : ApiSortKey → Bool
is_endpoint_key by_endpoint = true
is_endpoint_key _ = false

-- The fields of `ApiStats` that the table sorts by.
pub record ApiStat (N : Type 0) : Type 0 where
  pub endpoint : String
  pub display_name : String
  pub total_requests : N
  pub total_tokens : N
  pub total_cost : N

module _ {N : Type 0} (collates : String → String → Bool) (n : Arithmetic N) where
  unfoldable pub compare_apis : ApiSortKey → SortDir → ApiStat N → ApiStat N → Bool
  compare_apis by_endpoint dir a b = in_dir collates dir a.display_name b.display_name
  compare_apis by_total_requests dir a b = in_dir n.leq dir a.total_requests b.total_requests
  compare_apis by_total_tokens dir a b = in_dir n.leq dir a.total_tokens b.total_tokens
  compare_apis by_total_cost dir a b = in_dir n.leq dir a.total_cost b.total_cost

  unfoldable pub sorted_apis : Sorting ApiSortKey → List (ApiStat N) → List (ApiStat N)
  unfolding sort compare_apis
  sorted_apis s apis = sort (compare_apis s.sort_key s.sort_dir) apis

-- `expandedApis.has(endpoint)`
abbrev pub is_expanded : List String → String → Bool
is_expanded expanded endpoint = any (λ e. str_eq e endpoint) expanded

-- The set is a list of its members, in the order in which they were added.
unfoldable pub toggle_expand : String → List String → List String
toggle_expand endpoint expanded =
    if is_expanded expanded endpoint
    then filter (λ e. not (str_eq e endpoint)) expanded
    else expanded ++ endpoint ∷ []
