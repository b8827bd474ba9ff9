-- ===== src/Usage/Stats/Laws.antt =====
-- The statistics of a model come from the rows of that model alone, in any list of rows.
use daili_usage_keeper_north.Base.{
  ℕ, ◌+◌, ◌≡◌, refl, ◌∙◌, String, Bool, not, Option, none, some, List, [], ◌∷◌, ◌++◌, foldl,
  foldl-append, Dict, lookup, lookup-group, absorb-none, of_items, filter, length, length-append,
  str_eq, ℤ, pos, ◌+ℤ◌, arith, is_some, or_else, if◌then◌else◌, ltb, values,
}
use mathlib.Core.List.{Perm}
use daili_usage_keeper_north.Base.{sort-perm, sort-IsSorted, IsSorted, IsOrder}
use daili_usage_keeper_north.Host.{Host}
use daili_usage_keeper_north.Usage.{DetailRecord, Payload, tokens_of}
use daili_usage_keeper_north.Usage.Details.{collect_usage_details}
use daili_usage_keeper_north.Usage.Latency.{finite_from_zero}
use daili_usage_keeper_north.Usage.Stats.{
  Money, ModelPrice, ModelStatsSummary, calculate_cost, stats_model, add_to_model_stats,
  group_by_model, get_model_stats, most_requests,
}

-- The sum of the tokens, in the order of the rows.
abbrev pub tokens_from : ℤ → List DetailRecord → ℤ
tokens_from n ds = foldl (λ a d. a +ℤ tokens_of d) n ds

abbrev pub is_timed : DetailRecord → Bool
is_timed d = is_some (finite_from_zero d.latency_ms)

abbrev pub latency_sum : List DetailRecord → ℕ
latency_sum [] = 0
latency_sum (d ∷ ds) = or_else (finite_from_zero d.latency_ms) 0 + latency_sum ds

latency_sum-append :
    (xs ys : List DetailRecord) → latency_sum (xs ++ ys) ≡ latency_sum xs + latency_sum ys
latency_sum-append [] ys = omega arith
latency_sum-append (x ∷ xs) ys = omega (arith, latency_sum-append xs ys)

abbrev pub average_of : ℕ → ℕ → Option (ℕ × ℕ)
average_of total count = if ltb 0 count then some (total, count) else none

abbrev pub name_of : List DetailRecord → (DetailRecord → String) → String
name_of [] key = ""
name_of (d ∷ ds) key = key d

count_snoc :
    (p : DetailRecord → Bool) (ds : List DetailRecord) (x : DetailRecord)
    → length (filter p (ds ++ x ∷ []))
      ≡ (if p x then length (filter p ds) + 1 else length (filter p ds))
count_snoc p [] x = ground arith
count_snoc p (d ∷ ds) x = ground (arith, count_snoc p ds x)

count_snoc_not :
    (ds : List DetailRecord) (x : DetailRecord)
    → length (filter (λ d. not d.failed) (ds ++ x ∷ [])) ≡ (
        if x.failed
        then length (filter (λ d. not d.failed) ds)
        else length (filter (λ d. not d.failed) ds) + 1)
count_snoc_not ds x = ground (arith, count_snoc (λ d. not d.failed) ds x)

timed_snoc :
    (ds : List DetailRecord) (x : DetailRecord)
    → length (filter is_timed (ds ++ x ∷ []))
      ≡ length (filter is_timed ds) + (if is_timed x then 1 else 0)
timed_snoc ds x = ground (arith, count_snoc is_timed ds x)

module _ {C : Type 0} (m : Money C) (prices : Dict (ModelPrice C)) where
  -- What the statistics of some rows have to be: the costs are added in the order of the rows.
  abbrev pub summary_of : List DetailRecord → ModelStatsSummary C
  summary_of ds = record {
    model = name_of ds (stats_model m prices);
    requests = length ds;
    success_count = length (filter (λ d. not d.failed) ds);
    failure_count = length (filter (λ d. d.failed) ds);
    tokens = tokens_from (pos 0) ds;
    average_latency_ms = average_of (latency_sum ds) (length (filter is_timed ds));
    total_latency_ms = latency_sum ds;
    latency_sample_count = length (filter is_timed ds);
    cost = foldl (λ a d. m.plus a (calculate_cost m prices d)) m.nothing ds;
  }

  summary_of-first : (x : DetailRecord) → add_to_model_stats m prices x none ≡ summary_of (x ∷ [])
  unfolding add_to_model_stats
  summary_of-first x = ground arith

  requests_order : IsOrder (most_requests m prices)
  requests_order = record { total = λ x y h. ground arith; trans = λ x y z h k. ground arith }

  -- One more row, field by field.
  add_to_model_stats-fields :
      (x : DetailRecord) (s t : ModelStatsSummary C)
      → t.model ≡ s.model
      → t.requests ≡ s.requests + 1
      → t.success_count ≡ (if x.failed then s.success_count else s.success_count + 1)
      → t.failure_count ≡ (if x.failed then s.failure_count + 1 else s.failure_count)
      → t.tokens ≡ s.tokens +ℤ tokens_of x
      → t.cost ≡ m.plus s.cost (calculate_cost m prices x)
      → t.total_latency_ms ≡ s.total_latency_ms + or_else (finite_from_zero x.latency_ms) 0
      → t.latency_sample_count ≡ s.latency_sample_count + (if is_timed x then 1 else 0)
      → s.average_latency_ms ≡ average_of s.total_latency_ms s.latency_sample_count
      → t.average_latency_ms ≡ average_of t.total_latency_ms t.latency_sample_count
      → add_to_model_stats m prices x (some s) ≡ t
  unfolding add_to_model_stats
  add_to_model_stats-fields x s t a b c d e f g h i j = ground arith

  summary_of-step :
      (y : DetailRecord) (ys : List DetailRecord) (x : DetailRecord)
      → add_to_model_stats m prices x (some (summary_of (y ∷ ys))) ≡ summary_of ((y ∷ ys) ++ x ∷ [])
  summary_of-step y ys x =
      add_to_model_stats-fields x (summary_of (y ∷ ys)) (summary_of ((y ∷ ys) ++ x ∷ [])) refl
        (length-append (y ∷ ys) (x ∷ [])) (count_snoc_not (y ∷ ys) x)
        (count_snoc (λ d. d.failed) (y ∷ ys) x) (foldl-append _ (pos 0) (y ∷ ys) (x ∷ []))
        (foldl-append _ m.nothing (y ∷ ys) (x ∷ []))
        (omega (arith, latency_sum-append (y ∷ ys) (x ∷ []))) (timed_snoc (y ∷ ys) x) refl refl

  -- The entry of a model holds the statistics of the rows with that model, and there is no entry
  -- without such a row.
  lookup-group_by_model :
      (j : String) (details : List DetailRecord)
      → lookup j (group_by_model m prices details)
        ≡ of_items summary_of (filter (λ d. str_eq (stats_model m prices d) j) details)
  unfolding group_by_model lookup
  lookup-group_by_model j details =
      lookup-group (add_to_model_stats m prices) (stats_model m prices) j [] details
      ∙ absorb-none (add_to_model_stats m prices) summary_of summary_of-step summary_of-first _

  -- The list that is shown holds the entries of the rows of the payload, most requests first.
  pub get_model_stats_lem :
      (h : Host) (usage : Option Payload)
      → Perm
          (get_model_stats m prices h usage)
          (values (group_by_model m prices (collect_usage_details h usage)))
        × IsSorted (most_requests m prices) (get_model_stats m prices h usage)
  unfolding get_model_stats
  get_model_stats_lem h usage =
      let entries = values (group_by_model m prices (collect_usage_details h usage)) in
      (
        sort-perm (most_requests m prices) entries,
        sort-IsSorted (most_requests m prices) requests_order entries,
      )
