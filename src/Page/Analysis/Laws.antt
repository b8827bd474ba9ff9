-- ===== src/Page/Analysis/Laws.antt =====
-- The costs of the analysis tab agree with one another.
use daili_usage_keeper_north.Base.{
  ◌≡◌, refl, ap, sym, ◌∙◌, List, [], ◌∷◌, map, foldl, Dict, lookup, Option-cases, inl, inr,
}
use daili_usage_keeper_north.Usage.Stats.{Money, ModelPrice}
use daili_usage_keeper_north.Page.Analysis.{
  AnalysisModel, AnalysisApi, add_model_cost, api_stats_of, analysis_cost, model_stats_of,
}

-- The laws of the sums of money that the code relies on.
pub record IsMoney {C : Type 0} (money : Money C) : Type 0 where
  pub plus_nothing : (a : C) → money.plus a money.nothing ≡ a
  pub plus_assoc : (a b c : C) → money.plus (money.plus a b) c ≡ money.plus a (money.plus b c)

module _ {C : Type 0} (money : Money C) (prices : Dict (ModelPrice C)) (h : IsMoney money) where
  add-cost :
      (sum : C) (m : AnalysisModel)
      → add_model_cost money prices sum m ≡ money.plus sum (analysis_cost money prices m)
  unfolding add_model_cost analysis_cost
  add-cost sum m = elim (Option-cases (lookup m.model prices)) [
    | inl e ↦ rw (add_model_cost, analysis_cost, e) (sym (h.plus_nothing sum))
    | inr (p, e) ↦
        rw (add_model_cost, analysis_cost, e, h.plus_assoc, h.plus_assoc, h.plus_assoc) refl
  ]

  -- The sum of the costs that the table of models shows for these models.
  abbrev shown_costs : C → List AnalysisModel → C
  shown_costs sum ms = foldl (λ s r. money.plus s r.cost) sum (map (model_stats_of money prices) ms)

  costs_agree :
      (sum : C) (ms : List AnalysisModel)
      → foldl (add_model_cost money prices) sum ms ≡ shown_costs sum ms
  unfolding model_stats_of
  costs_agree sum [] = refl
  costs_agree sum (m ∷ ms) =
      costs_agree (add_model_cost money prices sum m) ms
      ∙ ap (λ s. shown_costs s ms) (add-cost sum m)

  -- Where sums of money are associative with a zero, the cost of an API is the sum of what the rows of
  -- models would show for its models, priced or not.
  pub total_cost-models :
      (a : AnalysisApi)
      → (api_stats_of money prices a).total_cost
        ≡ foldl
            (λ s r. money.plus s r.cost)
            money.nothing
            (map (model_stats_of money prices) a.models)
  unfolding api_stats_of
  total_cost-models a = costs_agree money.nothing a.models
