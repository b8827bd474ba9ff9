-- ===== src/Events/Paging.antt =====
-- The pager and the filters of web/src/components/usage/RequestEventsDetailsCard.tsx.
pub mod Laws
use daili_usage_keeper_north.Base.{
  ℕ, ◌+◌, ◌-◌, ◌/◌, min, max, String, Bool, true, false, ◌||◌, Option, none, some, List, [], ◌∷◌,
  ◌++◌, map, if◌then◌else◌, ltb, leb, ◌==◌, str_eq, any, length, text_or, or_else, is_empty,
}

-- `Math.ceil(a / b)` for a positive `b`.
abbrev pub ceil_div : ℕ → ℕ → ℕ
ceil_div a b = (a + b - 1) / b

unfoldable pub computed_total_pages : ℕ → ℕ → ℕ
computed_total_pages page_size total_count =
    if ltb 0 page_size then ceil_div total_count page_size else 0

unfoldable pub safe_total_pages : ℕ → ℕ → ℕ → ℕ → ℕ
unfolding computed_total_pages
safe_total_pages total_pages page_size total_count rows =
    max (max total_pages (computed_total_pages page_size total_count)) (if ltb 0 rows then 1 else 0)

unfoldable pub safe_page : ℕ → ℕ → ℕ
safe_page page total = if ltb 0 total then min (max page 1) total else 0

-- What the two buttons of the pager do: `disabled`, and the page that they ask for.
unfoldable pub previous_page : Bool → ℕ → ℕ → Option ℕ
unfolding safe_page
previous_page loading page total =
    if loading || leb (safe_page page total) 1 then none else some (page - 1)

unfoldable pub next_page : Bool → ℕ → ℕ → Option ℕ
unfolding safe_page
next_page loading page total =
    if loading || total == 0 || leb total (safe_page page total) then none else some (page + 1)

-- `{ value, label }`
pub record SelectOption : Type 0 where
  pub value : String
  pub label : String

abbrev pub all_filter : String
all_filter = "__all__"

abbrev pub has_value : String → List SelectOption → Bool
has_value v options = any (λ o. str_eq o.value v) options

unfoldable pub append_selected_option : List SelectOption → String → String → List SelectOption
append_selected_option options value label =
    if str_eq value all_filter || has_value value options
    then options
    else options ++ (record { value = value; label = label } ∷ [])

-- The text `all` is `t('usage_stats.filter_all')`.
unfoldable pub model_options : String → List String → String → List SelectOption
unfolding append_selected_option
model_options all models selected =
    append_selected_option
      (record { value = all_filter; label = all }
        ∷ map (λ m. record { value = m; label = m }) models)
      selected selected

-- `backendSourceOptions.find((source) => source.value === sourceFilter)?.label`
unfoldable pub label_of_source : String → List SelectOption → Option String
label_of_source v [] = none
label_of_source v (o ∷ os) = if str_eq o.value v then some o.label else label_of_source v os

unfoldable pub source_options : String → List SelectOption → String → List SelectOption
unfolding append_selected_option label_of_source
source_options all sources selected =
    append_selected_option
      (record { value = all_filter; label = all }
        ∷ map (λ o. record { value = o.value; label = text_or o.label o.value }) sources)
      selected (text_or (or_else (label_of_source selected sources) "") selected)

unfoldable pub result_options : (all success failure : String) → List SelectOption
result_options all success failure =
    record { value = all_filter; label = all }
    ∷ record { value = "success"; label = success }
    ∷ record { value = "failed"; label = failure }
    ∷ []

unfoldable pub effective_filter : List SelectOption → String → String
effective_filter options selected = if has_value selected options then selected else all_filter
