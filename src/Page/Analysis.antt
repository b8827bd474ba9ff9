-- ===== src/Page/Analysis.antt =====
-- The statistics of the analysis tab, `apiStats` and `modelStats` of web/src/pages/UsagePage.tsx, with
-- the types of the response. A quotient is kept as the pair of its numbers.
pub mod Laws
use daili_usage_keeper_north.Base.{
  String, Bool, true, false, Option, none, some, List, [], ◌∷◌, map, foldl, Dict, lookup, update, ℤ,
  pos, ◌-ℤ◌, max_ℤ, ltb_ℤ, if◌then◌else◌, text_or,
}
use daili_usage_keeper_north.Usage.Stats.{Money, ModelPrice}

pub record AnalysisModel : Type 0 where
  pub model : String
  pub total_requests : ℤ
  pub success_count : ℤ
  pub failure_count : ℤ
  pub input_tokens : ℤ
  pub output_tokens : ℤ
  pub reasoning_tokens : ℤ
  pub cached_tokens : ℤ
  pub total_tokens : ℤ
  pub total_latency_ms : ℤ
  pub latency_sample_count : ℤ

pub record AnalysisApi : Type 0 where
  pub api_key : String
  pub display_name : String
  pub total_requests : ℤ
  pub success_count : ℤ
  pub failure_count : ℤ
  pub input_tokens : ℤ
  pub output_tokens : ℤ
  pub reasoning_tokens : ℤ
  pub cached_tokens : ℤ
  pub total_tokens : ℤ
  pub models : List AnalysisModel

pub record AnalysisResponse : Type 0 where
  pub apis : List AnalysisApi
  pub models : List AnalysisModel

-- `Object.fromEntries(list.map((x) => [key(x), value(x)]))`: a later entry replaces an earlier one.
unfoldable pub from_entries {ℓ κ} :
    {A : Type ℓ} {V : Type κ} → (A → String) → (A → V) → Dict V → List A → Dict V
unfolding update
from_entries key value m [] = m
from_entries key value m (x ∷ xs) = from_entries key value (update (key x) (λ o. value x) m) xs

pub record ApiModelStats : Type 0 where
  pub requests : ℤ
  pub success_count : ℤ
  pub failure_count : ℤ
  pub tokens : ℤ

pub record AnalysisApiStats (C : Type 0) : Type 0 where
  pub endpoint : String
  pub display_name : String
  pub total_requests : ℤ
  pub success_count : ℤ
  pub failure_count : ℤ
  pub total_tokens : ℤ
  pub total_cost : C
  pub models : Dict ApiModelStats

pub record AnalysisModelStats (C : Type 0) : Type 0 where
  pub model : String
  pub requests : ℤ
  pub success_count : ℤ
  pub failure_count : ℤ
  pub tokens : ℤ
  pub average_latency_ms : Option (ℤ × ℤ)
  pub total_latency_ms : Option ℤ
  pub latency_sample_count : ℤ
  pub cost : C

abbrev pub api_model_stats : AnalysisModel → ApiModelStats
api_model_stats m = record {
  requests = m.total_requests;
  success_count = m.success_count;
  failure_count = m.failure_count;
  tokens = m.total_tokens;
}

module _ {C : Type 0} (money : Money C) (prices : Dict (ModelPrice C)) where
  -- The body of the `reduce` over an API's models.
  unfoldable pub add_model_cost : C → AnalysisModel → C
  unfolding lookup
  add_model_cost sum m = elim (lookup m.model prices) [
    | none ↦ sum
    | some pricing ↦
        let cached = max_ℤ m.cached_tokens (pos 0) in
        let input = max_ℤ m.input_tokens (pos 0) in
        let output = max_ℤ m.output_tokens (pos 0) in
        let prompt = max_ℤ (input -ℤ cached) (pos 0) in
        money.plus
          (money.plus (money.plus sum (money.charge prompt pricing.prompt))
            (money.charge output pricing.completion))
          (money.charge cached pricing.cache)
  ]

  unfoldable pub api_stats_of : AnalysisApi → AnalysisApiStats C
  unfolding add_model_cost from_entries
  api_stats_of a = record {
    endpoint = a.api_key;
    display_name = text_or a.display_name a.api_key;
    total_requests = a.total_requests;
    success_count = a.success_count;
    failure_count = a.failure_count;
    total_tokens = a.total_tokens;
    total_cost = foldl add_model_cost money.nothing a.models;
    models = from_entries (λ m. m.model) api_model_stats [] a.models;
  }

  unfoldable pub analysis_cost : AnalysisModel → C
  unfolding lookup
  analysis_cost m = elim (lookup m.model prices) [
    | none ↦ money.nothing
    | some pricing ↦
        let cached = max_ℤ m.cached_tokens (pos 0) in
        let input = max_ℤ m.input_tokens (pos 0) in
        let output = max_ℤ m.output_tokens (pos 0) in
        let prompt = max_ℤ (input -ℤ cached) (pos 0) in
        money.plus
          (money.plus (money.charge prompt pricing.prompt) (money.charge output pricing.completion))
          (money.charge cached pricing.cache)
  ]

  unfoldable pub model_stats_of : AnalysisModel → AnalysisModelStats C
  unfolding analysis_cost
  model_stats_of m =
      let sampled = ltb_ℤ (pos 0) m.latency_sample_count in
      record {
        model = m.model;
        requests = m.total_requests;
        success_count = m.success_count;
        failure_count = m.failure_count;
        tokens = m.total_tokens;
        average_latency_ms =
            if sampled then some (m.total_latency_ms, m.latency_sample_count) else none;
        total_latency_ms = if sampled then some m.total_latency_ms else none;
        latency_sample_count = m.latency_sample_count;
        cost = analysis_cost m;
      }

  unfoldable pub analysis_api_stats : AnalysisResponse → List (AnalysisApiStats C)
  unfolding api_stats_of
  analysis_api_stats r = map api_stats_of r.apis

  unfoldable pub analysis_model_stats : AnalysisResponse → List (AnalysisModelStats C)
  unfolding model_stats_of
  analysis_model_stats r = map model_stats_of r.models
