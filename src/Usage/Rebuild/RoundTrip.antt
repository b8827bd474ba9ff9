-- ===== src/Usage/Rebuild/RoundTrip.antt =====
-- Reading the rebuilt payload back gives the rows that went in: nothing is lost, doubled or moved to
-- another API or model.
use mathlib.Core.List.{Perm}
use mathlib.Core.List.Perm
use daili_usage_keeper_north.Base.{
  ◌≡◌, refl, ap, ap₂, sym, ◌∙◌, subst, String, Option, none, some, List, [], ◌∷◌, ◌++◌, map, Dict,
  update, num, to_number, group, flat, flat-update, rows_of, map-append, sort-perm, append_assoc,
  append-nil,
}
use daili_usage_keeper_north.Host.{Host}
use daili_usage_keeper_north.Usage.{Detail, DetailRecord}
use daili_usage_keeper_north.Usage.Details.{
  display_name_of, newest_first, collect_detail, collect_models, collect_apis,
  collect_usage_details,
}
use daili_usage_keeper_north.Usage.Rebuild.{
  BuiltModel, BuiltApi, api_key, model_key, rebuild_detail, add_to_model, add_to_api,
  build_usage_from_details, model_payload, api_payload, to_payload, empty,
}
use daili_usage_keeper_north.Usage.Rebuild.Counts.{foldl-apis}

-- What a row says, without the display name of its API and its parsed time.
abbrev pub Core : Type 0
Core = Detail × Option String × Option String

abbrev pub core : DetailRecord → Core
core d = (d.detail, d.api_name, d.model_name)

-- The same of a row as `rebuild_detail` writes it.
abbrev pub rebuilt_core : DetailRecord → Core
rebuilt_core d = (rebuild_detail d, some (api_key d), some (model_key d))

abbrev settle : Detail → Detail
settle d = record d { latency_ms = num (to_number d.latency_ms) }

abbrev model_rows : String → String → BuiltModel → List Core
model_rows a m model = map (λ d. (settle d, some a, some m)) model.details

abbrev api_rows : String → BuiltApi → List Core
api_rows a api = flat (model_rows a) api.models

settle-rebuild_detail : (d : DetailRecord) → settle (rebuild_detail d) ≡ rebuild_detail d
unfolding rebuild_detail
settle-rebuild_detail d = refl

module _ (h : Host) where
  map-core-collect_detail :
      (a display m : String) (ds : List Detail)
      → map core (map (collect_detail h a display m) ds) ≡ map (λ d. (settle d, some a, some m)) ds
  unfolding collect_detail
  map-core-collect_detail a display m [] = refl
  map-core-collect_detail a display m (d ∷ ds) =
      ap (λ l. (settle d, some a, some m) ∷ l) (map-core-collect_detail a display m ds)

  map-core-collect_models :
      (a display : String) (models : Dict BuiltModel)
      → map core (collect_models h a display (map (λ e. (e.0, model_payload e.1)) models))
        ≡ flat (model_rows a) models
  unfolding collect_models
  map-core-collect_models a display [] = refl
  map-core-collect_models a display ((m, model) ∷ models) =
      map-append core (map (collect_detail h a display m) model.details) _
      ∙ ap₂ ◌++◌ (map-core-collect_detail a display m model.details)
          (map-core-collect_models a display models)

  map-core-collect_apis :
      (apis : Dict BuiltApi)
      → map core (collect_apis h (map (λ e. (e.0, api_payload e.1)) apis)) ≡ flat api_rows apis
  unfolding collect_apis
  map-core-collect_apis [] = refl
  map-core-collect_apis ((a, api) ∷ apis) =
      map-append core
        (collect_models h a (display_name_of a (some api.display_name))
          (map (λ e. (e.0, model_payload e.1)) api.models))
        _
      ∙ ap₂ ◌++◌ (map-core-collect_models a _ api.models) (map-core-collect_apis apis)

model_rows-add_to_model :
    (d : DetailRecord) (a : String) (o : Option BuiltModel)
    → Perm (model_rows a (model_key d) (add_to_model d o)) (
        rows_of (model_rows a) (model_key d) o
        ++ (rebuild_detail d, some a, some (model_key d)) ∷ [])
unfolding add_to_model
model_rows-add_to_model d a none = Perm.refl _
model_rows-add_to_model d a (some model) =
    subst
      (λ l.
        Perm l
          (model_rows a (model_key d) model ++ (rebuild_detail d, some a, some (model_key d)) ∷ []))
      (sym (
        map-append (λ e. (settle e, some a, some (model_key d))) model.details
          (rebuild_detail d ∷ [])))
      (Perm.refl _)

api_rows-add_to_api :
    (d : DetailRecord) (o : Option BuiltApi)
    → Perm
        (api_rows (api_key d) (add_to_api d o))
        (rows_of api_rows (api_key d) o ++ rebuilt_core d ∷ [])
unfolding add_to_api
api_rows-add_to_api d none =
    flat-update (model_rows (api_key d)) (model_key d) (add_to_model d) (rebuilt_core d)
      (model_rows-add_to_model d (api_key d)) []
api_rows-add_to_api d (some api) =
    flat-update (model_rows (api_key d)) (model_key d) (add_to_model d) (rebuilt_core d)
      (model_rows-add_to_model d (api_key d)) api.models

flat-group :
    (m : Dict BuiltApi) (ds : List DetailRecord)
    → Perm (flat api_rows (group add_to_api api_key m ds)) (flat api_rows m ++ map rebuilt_core ds)
unfolding group
flat-group m [] = subst (λ l. Perm (flat api_rows m) l) (sym (append-nil _)) (Perm.refl _)
flat-group m (d ∷ ds) = Perm.trans (flat-group (update (api_key d) (add_to_api d) m) ds) (
    subst (λ l. Perm (flat api_rows (update (api_key d) (add_to_api d) m) ++ map rebuilt_core ds) l)
      (append_assoc (flat api_rows m) (rebuilt_core d ∷ []) (map rebuilt_core ds))
      (Perm.append_right (map rebuilt_core ds) (
        flat-update api_rows (api_key d) (add_to_api d) (rebuilt_core d) (api_rows-add_to_api d)
          m)))

module _ (h : Host) where
  -- The rows of the rebuilt payload are, up to order, the rows that it was built from, each as
  -- `rebuild_detail` writes it and under its own API and model.
  pub collect-build-perm :
      (ds : List DetailRecord)
      → Perm
          (map core (collect_usage_details h (some (to_payload (build_usage_from_details h ds)))))
          (map rebuilt_core ds)
  unfolding collect_usage_details build_usage_from_details
  collect-build-perm ds =
      let apis = (build_usage_from_details h ds).apis in
      let rows = collect_apis h (map (λ e. (e.0, api_payload e.1)) apis) in
      Perm.trans (Perm.map core {l₂ = rows} (sort-perm newest_first rows)) (
        subst (λ l. Perm l (map rebuilt_core ds))
          (sym (map-core-collect_apis h apis ∙ ap (flat api_rows) (foldl-apis h empty ds)))
          (flat-group [] ds))
