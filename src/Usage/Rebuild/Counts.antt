-- ===== src/Usage/Rebuild/Counts.antt =====
-- Every counter and every bucket of the rebuilt payload counts just the rows that belong to it.
use daili_usage_keeper_north.Base.{
  ◌+◌, ◌≡◌, refl, ap, sym, ◌∙◌, of_items, optional_text_or, some-injective, foldl-append,
  map-append, absorb-none, length-append, +ℤ_comm, group-append, String, not, Option, none, some,
  List, [], ◌∷◌, ◌++◌, map, foldl, update, ℤ, pos, ◌+ℤ◌, lookup, filter, length, str_eq, group,
  lookup-group, +ℤ_assoc, +ℤ_zero, zero_+ℤ, arith,
}
use daili_usage_keeper_north.Host.{Host}
use daili_usage_keeper_north.Usage.{DetailRecord, tokens_of}
use daili_usage_keeper_north.Usage.Rebuild.{
  Counters, BuiltModel, BuiltApi, Built, no_counters, count_row, api_key, model_key, add_to_model,
  add_to_api, bump, bump_by, empty, day_of, hour_of, add_detail, build_usage_from_details,
  rebuild_detail,
}

abbrev pub token_sum : List DetailRecord → ℤ
token_sum [] = pos 0
token_sum (d ∷ ds) = tokens_of d +ℤ token_sum ds

-- What the counters over some rows have to be.
abbrev pub tally : List DetailRecord → Counters
tally ds = record {
  total_requests = length ds;
  success_count = length (filter (λ d. not d.failed) ds);
  failure_count = length (filter (λ d. d.failed) ds);
  total_tokens = token_sum ds;
}

abbrev plus : Counters → Counters → Counters
plus a b = record {
  total_requests = a.total_requests + b.total_requests;
  success_count = a.success_count + b.success_count;
  failure_count = a.failure_count + b.failure_count;
  total_tokens = a.total_tokens +ℤ b.total_tokens;
}

plus-zero : (c : Counters) → plus c no_counters ≡ c
plus-zero c = ground (arith, +ℤ_zero c.total_tokens)

zero-plus : (c : Counters) → plus no_counters c ≡ c
zero-plus c = ground (arith, zero_+ℤ c.total_tokens)

foldl-count_row : (c : Counters) (ds : List DetailRecord) → foldl count_row c ds ≡ plus c (tally ds)
unfolding count_row
foldl-count_row c [] = ground (arith, +ℤ_zero c.total_tokens)
foldl-count_row c (d ∷ ds) = ground (
  arith,
  foldl-count_row (count_row c d) ds,
  +ℤ_assoc c.total_tokens (tokens_of d) (token_sum ds),
)

foldl-count_row-tally : (ds : List DetailRecord) → foldl count_row no_counters ds ≡ tally ds
foldl-count_row-tally ds = foldl-count_row no_counters ds ∙ zero-plus (tally ds)

-- Each part of the payload is a fold of its own.
module _ (h : Host) where
  foldl-counters :
      (u : Built) (ds : List DetailRecord)
      → (foldl (add_detail h) u ds).counters ≡ foldl count_row u.counters ds
  unfolding add_detail
  foldl-counters u [] = refl
  foldl-counters u (d ∷ ds) = foldl-counters (add_detail h u d) ds

  pub foldl-apis :
      (u : Built) (ds : List DetailRecord)
      → (foldl (add_detail h) u ds).apis ≡ group add_to_api api_key u.apis ds
  unfolding add_detail group
  foldl-apis u [] = refl
  foldl-apis u (d ∷ ds) = foldl-apis (add_detail h u d) ds

  abbrev HasBuckets : Built → Built → List DetailRecord → Type 0
  HasBuckets v u ds =
      (v.requests_by_day ≡ group (λ _. bump) (day_of h) u.requests_by_day ds)
      × (v.requests_by_hour ≡ group (λ _. bump) (hour_of h) u.requests_by_hour ds)
      × (v.tokens_by_day ≡ group (λ d. bump_by (tokens_of d)) (day_of h) u.tokens_by_day ds)
      × (v.tokens_by_hour ≡ group (λ d. bump_by (tokens_of d)) (hour_of h) u.tokens_by_hour ds)

  foldl-HasBuckets :
      (u : Built) (ds : List DetailRecord) → HasBuckets (foldl (add_detail h) u ds) u ds
  unfolding add_detail group
  foldl-HasBuckets u [] = (refl, refl, refl, refl)
  foldl-HasBuckets u (d ∷ ds) = foldl-HasBuckets (add_detail h u d) ds

token_sum-append : (xs ys : List DetailRecord) → token_sum (xs ++ ys) ≡ token_sum xs +ℤ token_sum ys
token_sum-append [] ys = rw zero_+ℤ
token_sum-append (x ∷ xs) ys =
    rw (token_sum-append xs ys) (sym (+ℤ_assoc (tokens_of x) (token_sum xs) (token_sum ys)))

token_sum-concat :
    (xs : List DetailRecord) (x : DetailRecord)
    → token_sum xs +ℤ tokens_of x ≡ token_sum (xs ++ x ∷ [])
token_sum-concat xs x = rw (token_sum-append xs (x ∷ []), +ℤ_zero)

foldl-concat :
    (xs : List DetailRecord) (x : DetailRecord) → count_row (tally xs) x ≡ tally (xs ++ x ∷ [])
foldl-concat xs x =
    ap (λ c. count_row c x) (sym (foldl-count_row-tally xs))
    ∙ sym (foldl-append count_row no_counters xs (x ∷ []))
    ∙ foldl-count_row-tally (xs ++ x ∷ [])

tally-cons-nil : (x : DetailRecord) → count_row no_counters x ≡ tally (x ∷ [])
tally-cons-nil x = foldl-count_row-tally (x ∷ [])

-- The entry of a model, and of an API, that some rows add up to.
abbrev pub built_model : List DetailRecord → BuiltModel
built_model ds = record { counters = tally ds; details = map rebuild_detail ds }

abbrev display_of : List DetailRecord → String
display_of [] = ""
display_of (d ∷ ds) = optional_text_or d.api_display_name (api_key d)

unfoldable pub built_api : List DetailRecord → BuiltApi
unfolding group
built_api ds = record {
  display_name = display_of ds;
  counters = tally ds;
  models = group add_to_model model_key [] ds;
}

add_to_model-built_model :
    (y : DetailRecord) (xs : List DetailRecord) (x : DetailRecord)
    → add_to_model x (some (built_model (y ∷ xs))) ≡ built_model ((y ∷ xs) ++ x ∷ [])
unfolding add_to_model
add_to_model-built_model y xs x = λ i. record {
  counters = foldl-concat (y ∷ xs) x i;
  details = sym (map-append rebuild_detail (y ∷ xs) (x ∷ [])) i;
}

add_to_model-first : (x : DetailRecord) → add_to_model x none ≡ built_model (x ∷ [])
unfolding add_to_model
add_to_model-first x =
    λ i. record { counters = tally-cons-nil x i; details = rebuild_detail x ∷ [] }

add_to_api-built_api :
    (y : DetailRecord) (xs : List DetailRecord) (x : DetailRecord)
    → add_to_api x (some (built_api (y ∷ xs))) ≡ built_api ((y ∷ xs) ++ x ∷ [])
unfolding add_to_api built_api
add_to_api-built_api y xs x = λ i. record {
  display_name = display_of (y ∷ xs);
  counters = foldl-concat (y ∷ xs) x i;
  models = sym (group-append add_to_model model_key [] (y ∷ xs) (x ∷ [])) i;
}

add_to_api-first : (x : DetailRecord) → add_to_api x none ≡ built_api (x ∷ [])
unfolding add_to_api built_api
add_to_api-first x = λ i. record {
  display_name = display_of (x ∷ []);
  counters = tally-cons-nil x i;
  models = update (model_key x) (add_to_model x) [];
}

-- Below an API there is an entry for a model exactly when a row of that API names the model; it
-- holds the tally of these rows, and the rows themselves in their order.
lookup-models-built_api :
    (m : String) (ds : List DetailRecord)
    → lookup m (built_api ds).models
      ≡ of_items built_model (filter (λ d. str_eq (model_key d) m) ds)
unfolding built_api lookup
lookup-models-built_api m ds =
    lookup-group add_to_model model_key m [] ds
    ∙ absorb-none add_to_model built_model add_to_model-built_model add_to_model-first _

count_bucket :
    (key : DetailRecord → String) (k : String) (ds : List DetailRecord)
    → lookup k (group (λ _. bump) key [] ds) ≡ of_items length (filter (λ d. str_eq (key d) k) ds)
unfolding lookup
count_bucket key k ds =
    lookup-group (λ _. bump) key k [] ds
    ∙ absorb-none (λ _. bump) length (λ y xs x. omega (arith, length-append (y ∷ xs) (x ∷ [])))
        (λ x. omega arith) _

token_bucket :
    (key : DetailRecord → String) (k : String) (ds : List DetailRecord)
    → lookup k (group (λ d. bump_by (tokens_of d)) key [] ds)
      ≡ of_items token_sum (filter (λ d. str_eq (key d) k) ds)
unfolding lookup
token_bucket key k ds =
    lookup-group (λ d. bump_by (tokens_of d)) key k [] ds
    ∙ absorb-none (λ d. bump_by (tokens_of d)) token_sum (λ y xs x. token_sum-concat (y ∷ xs) x)
        (λ x. +ℤ_comm (pos 0) (tokens_of x)) _

module _ (h : Host) where
  -- The payload's own counters are the tally of all the rows: requests, successes, failures, tokens.
  counters-build : (ds : List DetailRecord) → (build_usage_from_details h ds).counters ≡ tally ds
  unfolding build_usage_from_details
  counters-build ds = foldl-counters h empty ds ∙ foldl-count_row-tally ds

  -- The rebuilt payload has an entry for an API exactly when a row names it; the entry's counters are
  -- the tally of the rows of that API, and its display name is that of the first of them.
  pub lookup-apis-build :
      (a : String) (ds : List DetailRecord)
      → lookup a (build_usage_from_details h ds).apis
        ≡ of_items built_api (filter (λ d. str_eq (api_key d) a) ds)
  unfolding build_usage_from_details lookup
  lookup-apis-build a ds =
      ap (lookup a) (foldl-apis h empty ds)
      ∙ lookup-group add_to_api api_key a [] ds
      ∙ absorb-none add_to_api built_api add_to_api-built_api add_to_api-first _

  -- The four time series have a bucket for a key exactly when a row falls on that day or hour, and
  -- it holds the number of these rows, or the sum of their tokens.
  pub lookup-buckets-build :
      (k : String) (ds : List DetailRecord)
      → let u = build_usage_from_details h ds in
        let on_day = filter (λ d. str_eq (day_of h d) k) ds in
        let in_hour = filter (λ d. str_eq (hour_of h d) k) ds in
        (lookup k u.requests_by_day ≡ of_items length on_day)
        × (lookup k u.requests_by_hour ≡ of_items length in_hour)
        × (lookup k u.tokens_by_day ≡ of_items token_sum on_day)
        × (lookup k u.tokens_by_hour ≡ of_items token_sum in_hour)
  unfolding build_usage_from_details lookup
  lookup-buckets-build k ds =
      let e = foldl-HasBuckets h empty ds in
      (
        ap (lookup k) e.0 ∙ count_bucket (day_of h) k ds,
        ap (lookup k) e.1 ∙ count_bucket (hour_of h) k ds,
        ap (lookup k) e.2 ∙ token_bucket (day_of h) k ds,
        ap (lookup k) e.3 ∙ token_bucket (hour_of h) k ds,
      )

-- `usage.apis[a]?.models[m]`
abbrev pub model_at : String → String → Built → Option BuiltModel
model_at a m u = elim (lookup a u.apis) [ none ↦ none | some api ↦ lookup m api.models ]

model_of_api :
    (m : String) (ds : List DetailRecord) (o : Option BuiltApi)
    → o ≡ of_items built_api ds
    → (elim o as (λ _. Option BuiltModel) [ none ↦ none | some api ↦ lookup m api.models ])
      ≡ of_items built_model (filter (λ d. str_eq (model_key d) m) ds)
model_of_api m [] none e = refl
model_of_api m [] (some api) e = cc
model_of_api m (d ∷ ds) none e = cc
model_of_api m (d ∷ ds) (some api) e =
    ap (λ (b : BuiltApi). lookup m b.models) (some-injective _ _ e)
    ∙ lookup-models-built_api m (d ∷ ds)

module _ (h : Host) where
  -- In the rebuilt payload there is an entry for a model below an API exactly when a row names both.
  -- Its counters are the tally of these rows (requests, successes, failures and tokens), and its
  -- details are these rows, rewritten by `rebuild_detail`, in the order in which they were given.
  pub model_at-build :
      (a m : String) (ds : List DetailRecord)
      → model_at a m (build_usage_from_details h ds)
        ≡ of_items built_model
            (filter (λ d. str_eq (model_key d) m) (filter (λ d. str_eq (api_key d) a) ds))
  model_at-build a m ds = model_of_api m _ _ (lookup-apis-build h a ds)
