-- ===== src/Snapshot/Tables/Laws.antt =====
-- The tables by API and by model: their order, and what becomes of the rows.
use daili_usage_keeper_north.Base.{List, map, arith, sort-perm, sort-IsSorted, IsSorted, IsOrder}
use mathlib.Core.List.{Perm}
use daili_usage_keeper_north.Usage.Stats.{Money}
use daili_usage_keeper_north.Page.Loader.Tabs.{PricingEntry}
use daili_usage_keeper_north.Snapshot.{UsageSnapshot, Totals}
use daili_usage_keeper_north.Snapshot.Summary.{price_map}
use daili_usage_keeper_north.Snapshot.Tables.{
  ApiRow, ModelSummaryItem, not_fewer_tokens, api_row, model_items, build_api_summary,
  build_model_summary,
}

by_tokens :
    {A : Type 0} (totals : A → Totals) → IsOrder (λ a b. not_fewer_tokens (totals a) (totals b))
by_tokens totals = record { total = λ x y h. ground arith; trans = λ x y z h k. ground arith }

-- Both tables have a row for each API and for each model of an API, those with most tokens first.
pub build_summaries_lem :
    {C : Type 0} (money : Money C) (usage : UsageSnapshot) (pricing : List (PricingEntry C))
    → Perm
        (build_api_summary money usage pricing)
        (map (api_row money (price_map money pricing)) usage.apis)
      × IsSorted (λ a b. not_fewer_tokens a.totals b.totals) (build_api_summary money usage pricing)
      × Perm
          (build_model_summary money usage pricing)
          (model_items money (price_map money pricing) usage.apis)
      × IsSorted
          (λ a b. not_fewer_tokens a.totals b.totals)
          (build_model_summary money usage pricing)
unfolding build_api_summary build_model_summary
build_summaries_lem {C = C} money usage pricing = (
  sort-perm _ _,
  sort-IsSorted _ (by_tokens (λ (a : ApiRow C). a.totals))
      (map (api_row money (price_map money pricing)) usage.apis),
  sort-perm _ _,
  sort-IsSorted _ (by_tokens (λ (a : ModelSummaryItem C). a.totals))
      (model_items money (price_map money pricing) usage.apis),
)
