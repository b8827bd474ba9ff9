-- ===== src/Usage/Details.antt =====
-- `collectUsageDetails` and `getModelNamesFromUsage` of web/src/utils/usage.ts: the rows of a payload,
-- newest first, and the names of its models.
use daili_usage_keeper_north.Base.{
  String, Bool, Option, none, some, List, [], ◌∷◌, ◌++◌, map, Dict, pos, leb_ℤ, num, to_number,
  or_else, trim, text_or, sort, is_blank, any, str_eq, if◌then◌else◌, ◌||◌, foldl, keys,
}
use daili_usage_keeper_north.Host.{Host}
use daili_usage_keeper_north.Usage.{Detail, Model, Api, Payload, DetailRecord, time_of}

-- `String(api.display_name ?? apiName).trim() || apiName`
abbrev pub display_name_of : String → Option String → String
display_name_of api_name given = text_or (trim (or_else given api_name)) api_name

-- `(a, b) => b.__timestampMs - a.__timestampMs` is at most 0.
abbrev pub newest_first : DetailRecord → DetailRecord → Bool
newest_first a b = leb_ℤ (time_of b) (time_of a)

module _ (h : Host) where
  unfoldable pub collect_detail : String → String → String → Detail → DetailRecord
  unfolding to_number
  collect_detail api_name display model_name d = record {
    detail = record d { latency_ms = num (to_number d.latency_ms) };
    api_name = some api_name;
    api_display_name = some display;
    model_name = some model_name;
    timestamp_ms = some (or_else (h.parse_date d.timestamp) (pos 0));
  }

  unfoldable pub collect_models : String → String → Dict Model → List DetailRecord
  unfolding collect_detail
  collect_models api_name display [] = []
  collect_models api_name display ((model_name, model) ∷ models) =
      map (collect_detail api_name display model_name) (or_else model.details [])
      ++ collect_models api_name display models

  unfoldable pub collect_apis : Dict Api → List DetailRecord
  unfolding collect_models trim
  collect_apis [] = []
  collect_apis ((api_name, api) ∷ apis) =
      collect_models api_name (display_name_of api_name api.display_name) (or_else api.models [])
      ++ collect_apis apis

  unfoldable pub collect_usage_details : Option Payload → List DetailRecord
  unfolding collect_apis sort
  collect_usage_details none = []
  collect_usage_details (some usage) = sort newest_first (collect_apis (or_else usage.apis []))

-- `names.add(normalized)`, unless the name is empty.
unfoldable pub add_name : List String → String → List String
unfolding trim
add_name names name =
    let normalized = trim name in
    if is_blank normalized || any (λ n. str_eq n normalized) names
    then names
    else names ++ normalized ∷ []

unfoldable pub names_of_apis : List String → Dict Api → List String
unfolding add_name
names_of_apis names [] = names
names_of_apis names ((api_name, api) ∷ apis) =
    names_of_apis (foldl add_name names (keys (or_else api.models []))) apis

unfoldable pub get_model_names_from_usage : Host → Option Payload → List String
unfolding names_of_apis sort
get_model_names_from_usage h none = []
get_model_names_from_usage h (some usage) =
    sort h.collates (names_of_apis [] (or_else usage.apis []))
