-- ===== src/Snapshot/Summary/Laws.antt =====
-- The token breakdown of a snapshot is that of its events.
use daili_usage_keeper_north.Base.{
  ◌≡◌, refl, ap, sym, ◌∙◌, String, List, [], ◌∷◌, ◌++◌, map, foldl, Dict, ℤ, ◌+ℤ◌, or_else,
  int_laws, arith, foldl-sort,
}
use daili_usage_keeper_north.Host.{Host}
use daili_usage_keeper_north.Snapshot.{
  UsageEvent, UsageSnapshot, ApiSnapshot, ModelSnapshot, SnapshotDetail, events_of_models,
  events_of_apis, collect_usage_events, not_after, time_of_event,
}
use daili_usage_keeper_north.Snapshot.Summary.{
  TokenBreakdown, no_breakdown, add_to_breakdown, breakdown_of_models, breakdown_of_apis,
  build_token_breakdown,
}

-- The breakdown of some events.
abbrev pub breakdown_of_events : TokenBreakdown → List UsageEvent → TokenBreakdown
breakdown_of_events b es = foldl (λ c e. add_to_breakdown c e.detail) b es

abbrev rows : String → String → ModelSnapshot → List UsageEvent
rows a m s = map (λ d. record { detail = d; api_name = a; model_name = m }) (or_else s.details [])

named :
    (a m : String) (b : TokenBreakdown) (ds : List SnapshotDetail)
    → foldl add_to_breakdown b ds
      ≡ breakdown_of_events b (map (λ d. record { detail = d; api_name = a; model_name = m }) ds)
named a m b [] = refl
named a m b (d ∷ ds) = named a m (add_to_breakdown b d) ds

events_append :
    (b : TokenBreakdown) (xs ys : List UsageEvent)
    → breakdown_of_events (breakdown_of_events b xs) ys ≡ breakdown_of_events b (xs ++ ys)
events_append b [] ys = refl
events_append b (x ∷ xs) ys = events_append (add_to_breakdown b x.detail) xs ys

models_flat :
    (a : String) (b : TokenBreakdown) (models : Dict ModelSnapshot)
    → breakdown_of_models b models ≡ breakdown_of_events b (events_of_models a models)
unfolding breakdown_of_models events_of_models
models_flat a b [] = refl
models_flat a b ((m, s) ∷ models) =
    ap (λ c. breakdown_of_models c models) (named a m b (or_else s.details []))
    ∙ models_flat a (breakdown_of_events b (rows a m s)) models
    ∙ events_append b (rows a m s) (events_of_models a models)

apis_flat :
    (b : TokenBreakdown) (apis : Dict ApiSnapshot)
    → breakdown_of_apis b apis ≡ breakdown_of_events b (events_of_apis apis)
unfolding breakdown_of_apis events_of_apis
apis_flat b [] = refl
apis_flat b ((a, s) ∷ apis) =
    ap (λ c. breakdown_of_apis c apis) (models_flat a b s.models)
    ∙ apis_flat (breakdown_of_events b (events_of_models a s.models)) apis
    ∙ events_append b (events_of_models a s.models) (events_of_apis apis)

swap_sum : (a b c : ℤ) → a +ℤ b +ℤ c ≡ a +ℤ c +ℤ b
swap_sum a b c = omega int_laws

swap_rows :
    (b : TokenBreakdown) (d e : SnapshotDetail)
    → add_to_breakdown (add_to_breakdown b d) e ≡ add_to_breakdown (add_to_breakdown b e) d
unfolding add_to_breakdown
swap_rows b d e = ground (
  arith,
  swap_sum b.input_tokens d.tokens.input_tokens e.tokens.input_tokens,
  swap_sum b.output_tokens d.tokens.output_tokens e.tokens.output_tokens,
  swap_sum b.reasoning_tokens d.tokens.reasoning_tokens e.tokens.reasoning_tokens,
  swap_sum b.cached_tokens d.tokens.cached_tokens e.tokens.cached_tokens,
)

-- The breakdown of the tokens of a snapshot, which goes through its APIs and models, is the sum over the
-- events that are collected from it, in whatever order their dates put them.
build_token_breakdown_lem :
    (h : Host) (usage : UsageSnapshot)
    → build_token_breakdown usage ≡ breakdown_of_events no_breakdown (collect_usage_events h usage)
unfolding build_token_breakdown collect_usage_events
build_token_breakdown_lem h usage =
    apis_flat no_breakdown usage.apis
    ∙ sym (
        foldl-sort (λ a b. not_after (time_of_event h a) (time_of_event h b))
          (λ c e. add_to_breakdown c e.detail) (λ b x y. swap_rows b x.detail y.detail) no_breakdown
          (events_of_apis usage.apis))
