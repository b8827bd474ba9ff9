-- ===== src/Snapshot/Tables.antt =====
-- The tables by API and by model of web/src/lib/usage.ts: `buildApiSummary` and `buildModelSummary`.
-- Quotients are kept as the two numbers, and a success rate is over 100. A latency is a number without
-- NaN, so that the test for a finite one keeps them all.
pub mod Laws
use daili_usage_keeper_north.Base.{
  ℕ, String, Bool, Option, none, some, List, [], ◌∷◌, ◌++◌, map, foldl, Dict, ℤ, pos, ◌+ℤ◌, leb_ℤ,
  if◌then◌else◌, or_else, sort, length, ltb,
}
use daili_usage_keeper_north.Usage.Stats.{Money}
use daili_usage_keeper_north.Page.Loader.Tabs.{PricingEntry}
use daili_usage_keeper_north.Snapshot.{
  UsageEvent, UsageSnapshot, ApiSnapshot, ModelSnapshot, SnapshotDetail, Totals,
}
use daili_usage_keeper_north.Snapshot.Summary.{price_map, calculate_event_cost}

pub record ModelRow (C : Type 0) : Type 0 where
  pub model_name : String
  pub totals : Totals
  pub total_cost : C

pub record ApiRow (C : Type 0) : Type 0 where
  pub api_name : String
  pub totals : Totals
  pub model_count : ℕ
  pub total_cost : C
  pub models : List (ModelRow C)

-- `none` is an average of 0 over no latency, or a rate of 100 over no request.
pub record ModelSummaryItem (C : Type 0) : Type 0 where
  pub api_name : String
  pub model_name : String
  pub totals : Totals
  pub average_latency_ms : Option (ℤ × ℕ)
  pub total_latency_ms : ℤ
  pub success_rate : Option (ℕ × ℕ)
  pub total_cost : C

abbrev pub at_names : String → String → SnapshotDetail → UsageEvent
at_names api_name model_name d = record { detail = d; api_name = api_name; model_name = model_name }

-- `b.totalTokens - a.totalTokens <= 0`
abbrev pub not_fewer_tokens : Totals → Totals → Bool
not_fewer_tokens a b = leb_ℤ b.total_tokens a.total_tokens

module _ {C : Type 0} (money : Money C) (prices : Dict (PricingEntry C)) where
  unfoldable pub details_cost : String → String → List SnapshotDetail → C
  unfolding calculate_event_cost
  details_cost api_name model_name details =
      foldl (λ sum e. money.plus sum (calculate_event_cost money prices e)) money.nothing
        (map (at_names api_name model_name) details)

  unfoldable pub model_row : String → String × ModelSnapshot → ModelRow C
  unfolding details_cost
  model_row api_name (model_name, model) = record {
    model_name = model_name;
    totals = model.totals;
    total_cost = details_cost api_name model_name (or_else model.details []);
  }

  unfoldable pub model_rows : String → Dict ModelSnapshot → List (ModelRow C)
  unfolding model_row sort
  model_rows api_name models =
      sort (λ a b. not_fewer_tokens a.totals b.totals) (map (model_row api_name) models)

  unfoldable pub api_row : String × ApiSnapshot → ApiRow C
  unfolding model_rows
  api_row (api_name, api) =
      let models = model_rows api_name api.models in
      record {
        api_name = api_name;
        totals = api.totals;
        model_count = length models;
        total_cost = foldl (λ sum m. money.plus sum m.total_cost) money.nothing models;
        models = models;
      }

  unfoldable pub model_item : String → String × ModelSnapshot → ModelSummaryItem C
  unfolding details_cost
  model_item api_name (model_name, model) =
      let details = or_else model.details [] in
      let latency = foldl (λ sum d. sum +ℤ d.latency_ms) (pos 0) details in
      record {
        api_name = api_name;
        model_name = model_name;
        totals = model.totals;
        average_latency_ms =
            if ltb 0 (length details) then some (latency, length details) else none;
        total_latency_ms = latency;
        success_rate =
            if ltb 0 model.totals.total_requests
            then some (model.totals.success_count, model.totals.total_requests)
            else none;
        total_cost = details_cost api_name model_name details;
      }

  unfoldable pub model_items : Dict ApiSnapshot → List (ModelSummaryItem C)
  unfolding model_item
  model_items [] = []
  model_items ((api_name, api) ∷ apis) = map (model_item api_name) api.models ++ model_items apis

module _ {C : Type 0} (money : Money C) where
  unfoldable pub build_api_summary : UsageSnapshot → List (PricingEntry C) → List (ApiRow C)
  unfolding api_row sort
  build_api_summary usage pricing =
      sort (λ a b. not_fewer_tokens a.totals b.totals)
        (map (api_row money (price_map money pricing)) usage.apis)

  unfoldable pub build_model_summary :
      UsageSnapshot → List (PricingEntry C) → List (ModelSummaryItem C)
  unfolding model_items sort
  build_model_summary usage pricing =
      sort (λ a b. not_fewer_tokens a.totals b.totals)
        (model_items money (price_map money pricing) usage.apis)
