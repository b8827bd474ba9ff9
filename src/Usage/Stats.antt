-- ===== src/Usage/Stats.antt =====
-- `calculateCost`, `getApiStats` and `getModelStats` of web/src/utils/usage.ts. The arithmetic of
-- prices, which are fractions of a dollar, is an argument.
pub mod Laws
use daili_usage_keeper_north.Base.{
  ℕ, ◌+◌, String, Bool, Option, none, some, List, [], ◌∷◌, map, foldl, Dict, lookup, group, values,
  ℤ, pos, ◌+ℤ◌, ◌-ℤ◌, max_ℤ, leb_ℤ, leb, JsNumber, to_number, to_number_of_optional, if◌then◌else◌,
  or_else, text_or, sort, trim,
}
use daili_usage_keeper_north.Host.{Host}
use daili_usage_keeper_north.Usage.{
  Detail, Model, Api, Payload, DetailRecord, tokens_of, extract_total_tokens, cached_of,
}
use daili_usage_keeper_north.Usage.Details.{collect_usage_details, display_name_of}
use daili_usage_keeper_north.Usage.Latency.{finite_from_zero}

-- The arithmetic of amounts of money: `charge n price` is `(n / 1_000_000) * price`.
pub record Money (C : Type 0) : Type 0 where
  pub nothing : C
  pub plus : C → C → C
  pub charge : ℤ → C → C
  pub is_positive : C → Bool

pub record ModelPrice (C : Type 0) : Type 0 where
  pub prompt : C
  pub completion : C
  pub cache : C

pub record ModelStatsSummary (C : Type 0) : Type 0 where
  pub model : String
  pub requests : ℕ
  pub success_count : ℕ
  pub failure_count : ℕ
  pub tokens : ℤ
  -- The total latency over the number of samples; `none` is null.
  pub average_latency_ms : Option (ℕ × ℕ)
  pub total_latency_ms : ℕ
  pub latency_sample_count : ℕ
  pub cost : C

pub record ApiStatsModelSummary : Type 0 where
  pub requests : ℤ
  pub success_count : ℤ
  pub failure_count : ℤ
  pub tokens : ℤ

pub record ApiStats (C : Type 0) : Type 0 where
  pub endpoint : String
  pub display_name : String
  pub total_requests : ℤ
  pub success_count : ℤ
  pub failure_count : ℤ
  pub total_tokens : ℤ
  pub total_cost : C
  pub models : Dict ApiStatsModelSummary

module _ {C : Type 0} (m : Money C) (prices : Dict (ModelPrice C)) where
  -- `detail.__modelName ?? ''` is the first argument.
  unfoldable pub cost_of : String → Detail → C
  unfolding lookup to_number to_number_of_optional
  cost_of model_name d = elim (lookup model_name prices) [
    | none ↦ m.nothing
    | some pricing ↦
        let input = max_ℤ (to_number d.tokens.input_tokens) (pos 0) in
        let completion = max_ℤ (to_number d.tokens.output_tokens) (pos 0) in
        let cached = cached_of d.tokens in
        let prompt = max_ℤ (input -ℤ cached) (pos 0) in
        m.plus (m.plus (m.charge prompt pricing.prompt) (m.charge completion pricing.completion))
          (m.charge cached pricing.cache)
  ]

  unfoldable pub calculate_cost : DetailRecord → C
  unfolding cost_of
  calculate_cost d = cost_of (or_else d.model_name "") d.detail

  abbrev pub first_summary : String → ModelStatsSummary C
  first_summary model = record {
    model = model;
    requests = 0;
    success_count = 0;
    failure_count = 0;
    tokens = pos 0;
    average_latency_ms = none;
    total_latency_ms = 0;
    latency_sample_count = 0;
    cost = m.nothing;
  }

  -- `detail.__modelName || '-'`
  abbrev pub stats_model : DetailRecord → String
  stats_model d = text_or (or_else d.model_name "") "-"

  abbrev pub add_latency : Option ℕ → ModelStatsSummary C → ModelStatsSummary C
  add_latency none s = s
  add_latency (some ms) s = record s {
    total_latency_ms = s.total_latency_ms + ms;
    latency_sample_count = s.latency_sample_count + 1;
    average_latency_ms = some (s.total_latency_ms + ms, s.latency_sample_count + 1);
  }

  unfoldable pub add_to_model_stats :
      DetailRecord → Option (ModelStatsSummary C) → ModelStatsSummary C
  unfolding calculate_cost finite_from_zero
  add_to_model_stats d given =
      let s = or_else given (first_summary (stats_model d)) in
      add_latency (finite_from_zero d.latency_ms) (record s {
        requests = s.requests + 1;
        tokens = s.tokens +ℤ tokens_of d;
        cost = m.plus s.cost (calculate_cost d);
        failure_count = if d.failed then s.failure_count + 1 else s.failure_count;
        success_count = if d.failed then s.success_count else s.success_count + 1;
      })

  unfoldable pub group_by_model : List DetailRecord → Dict (ModelStatsSummary C)
  unfolding group add_to_model_stats
  group_by_model details = group add_to_model_stats stats_model [] details

  -- `(a, b) => b.requests - a.requests` is at most 0.
  abbrev pub most_requests : ModelStatsSummary C → ModelStatsSummary C → Bool
  most_requests a b = leb b.requests a.requests

  abbrev pub most_total_requests : ApiStats C → ApiStats C → Bool
  most_total_requests a b = leb_ℤ b.total_requests a.total_requests

  unfoldable pub get_model_stats : Host → Option Payload → List (ModelStatsSummary C)
  unfolding group_by_model collect_usage_details sort
  get_model_stats h usage =
      sort most_requests (values (group_by_model (collect_usage_details h usage)))

  unfoldable pub cost_of_models : C → Dict Model → C
  unfolding cost_of
  cost_of_models c [] = c
  cost_of_models c ((name, model) ∷ models) =
      cost_of_models (foldl (λ a d. m.plus a (cost_of name d)) c (or_else model.details [])) models

  abbrev pub model_entry : String × Model → String × ApiStatsModelSummary
  model_entry (name, model) = (
    name,
    record {
      requests = to_number model.total_requests;
      success_count = to_number model.success_count;
      failure_count = to_number model.failure_count;
      tokens = to_number model.total_tokens;
    },
  )

  unfoldable pub api_stats : String × Api → ApiStats C
  unfolding cost_of_models to_number trim
  api_stats (endpoint, api) = record {
    endpoint = endpoint;
    display_name = display_name_of endpoint api.display_name;
    total_requests = to_number api.total_requests;
    success_count = to_number api.success_count;
    failure_count = to_number api.failure_count;
    total_tokens = to_number api.total_tokens;
    total_cost = cost_of_models m.nothing (or_else api.models []);
    models = map model_entry (or_else api.models []);
  }

  -- `if (!usage?.apis) return []`
  unfoldable pub get_api_stats : Option Payload → List (ApiStats C)
  unfolding api_stats sort
  get_api_stats none = []
  get_api_stats (some usage) = elim usage.apis [
    | none ↦ []
    | some apis ↦ sort most_total_requests (map api_stats apis)
  ]
