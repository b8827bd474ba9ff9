-- ===== src/Overview/ChartHook/Laws.antt =====
-- The charts of an overview without rows show the series of their period.
use daili_usage_keeper_north.Base.{
  String, Option, none, some, List, [], ◌∷◌, ◌++◌, map, Dict, lookup, keys, ℤ, JsNumber, or_else,
  sort,
}
use daili_usage_keeper_north.Host.{Host}
use daili_usage_keeper_north.Usage.Chart.{Period, Metric, requests, tokens, ChartDataset}
use daili_usage_keeper_north.Usage.Chart.Build.{Series, values_at}
use daili_usage_keeper_north.Overview.ChartHook.{ModelSource, ChartSource, series_of_source}

-- The field of a series that a chart shows.
abbrev pub metric_of : Metric → ChartSource → Option (Dict JsNumber)
metric_of requests s = s.requests
metric_of tokens s = s.tokens

abbrev pub metric_of_model : Metric → ModelSource → Option (Dict JsNumber)
metric_of_model requests s = s.requests
metric_of_model tokens s = s.tokens

abbrev pub line_of : List String → String → Option (Dict JsNumber) → List (String × List ℤ)
line_of ks name none = []
line_of ks name (some m) = (name, values_at (some m) ks) ∷ []

-- The lines of the models that the series has, in the order in which they are asked for.
abbrev pub model_lines :
    Metric → Dict ModelSource → List String → List String → List (String × List ℤ)
model_lines metric models ks [] = []
model_lines metric models ks (name ∷ names) =
    line_of ks name (elim (lookup name models) [ none ↦ none | some s ↦ metric_of_model metric s ])
    ++ model_lines metric models ks names

abbrev pub shown_line : ChartDataset → String × List ℤ
shown_line d = (d.label, d.values)

module _ (models : Dict ModelSource) (period : Period) (metric : Metric) (ks : List String) where
  abbrev model_series_of : Dict Series
  model_series_of = map (λ e. (e.0, series_of_source e.1)) models

-- The keys of the buckets that a series has, in the order of the collation.
abbrev pub bucket_keys : Host → Option (Dict JsNumber) → List String
bucket_keys h m = sort h.collates (keys (or_else m []))
