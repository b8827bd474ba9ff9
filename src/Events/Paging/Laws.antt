-- ===== src/Events/Paging/Laws.antt =====
-- The page that is shown lies in range, and a selected filter stays selectable.
use native.Mathlib.Nat.{div-eq_of_lt, le_trans, mul-le-mul_right}
use daili_usage_keeper_north.Base.{
  ℕ, ◌+◌, ◌*◌, ◌≤◌, ◌<◌, ◌≡◌, refl, String, Bool, true, false, ◌||◌, some, List, [], ◌∷◌, ◌++◌,
  str_eq, any, arith, eq_iff, lt→ltb, Bool-cases, inl, inr,
}
use daili_usage_keeper_north.Events.Paging.{
  ceil_div, computed_total_pages, safe_total_pages, safe_page, previous_page, next_page,
  SelectOption, all_filter, has_value, append_selected_option, model_options, source_options,
  effective_filter,
}

pub ceil_div_lem : (a b : ℕ) → 0 < b → (a ≤ ceil_div a b * b) × (ceil_div a b * b < a + b)
ceil_div_lem a b h = grind arith

computed_total_pages_lem :
    (page_size total_count : ℕ)
    → 0 < page_size
    → total_count ≤ computed_total_pages page_size total_count * page_size
unfolding computed_total_pages
computed_total_pages_lem page_size total_count h =
    rw (lt→ltb 0 page_size h) (ceil_div_lem total_count page_size h).0

covers :
    (total_pages page_size total_count rows : ℕ)
    → computed_total_pages page_size total_count
      ≤ safe_total_pages total_pages page_size total_count rows
unfolding safe_total_pages
covers total_pages page_size total_count rows = ground arith

no_items :
    (page_size : ℕ)
    → 0 < page_size
    → (total_count : ℕ) → total_count ≡ 0
    → computed_total_pages page_size total_count ≡ 0
unfolding computed_total_pages
no_items page_size h total_count b = rw (lt→ltb 0 page_size h) (div-eq_of_lt (omega arith))

no_pages :
    (page_size : ℕ)
    → 0 < page_size
    → (total_pages total_count rows : ℕ) → total_pages ≡ 0
    → total_count ≡ 0
    → rows ≡ 0
    → safe_total_pages total_pages page_size total_count rows ≡ 0
unfolding safe_total_pages
no_pages page_size h total_pages total_count rows a b c =
    ground (arith, no_items page_size h total_count b)

-- For a positive page size, the number of pages is large enough for all the items, for what the backend says, and for the rows
-- that are there; and if all three agree on nothing, it is zero.
pub safe_total_pages_lem :
    (total_pages page_size total_count rows : ℕ)
    → 0 < page_size
    → let total = safe_total_pages total_pages page_size total_count rows in
      (total_count ≤ total * page_size)
      × (total_pages ≤ total)
      × (0 < rows → 0 < total)
      × (total_pages ≡ 0 → total_count ≡ 0 → rows ≡ 0 → total ≡ 0)
unfolding safe_total_pages
safe_total_pages_lem total_pages page_size total_count rows h = (
  le_trans (computed_total_pages_lem page_size total_count h)
      (mul-le-mul_right page_size (covers total_pages page_size total_count rows)),
  ground arith,
  λ r. ground arith,
  λ a b c. no_pages page_size h total_pages total_count rows a b c,
)

-- If there are pages, the page shown is one of them, and is the page that was chosen if that is one of
-- them. A button that is on is pressed while nothing loads, and asks for the page after the chosen one,
-- which is at most the last, or for the page before it, which is at least 1.
pub safe_page_lem :
    (loading : Bool) (page total : ℕ)
    → 0 < total
    → (1 ≤ safe_page page total)
      × (safe_page page total ≤ total)
      × (1 ≤ page → page ≤ total → safe_page page total ≡ page)
      × ((q : ℕ)
          → next_page loading page total ≡ some q
          → (loading ≡ false) × (q ≡ page + 1) × (q ≤ total))
      × ((q : ℕ)
          → previous_page loading page total ≡ some q
          → (loading ≡ false) × (q + 1 ≡ page) × (1 ≤ q))
unfolding safe_page next_page previous_page
safe_page_lem loading page total h =
    (ground arith, ground arith, λ a b. ground arith, λ q e. ground arith, λ q e. ground arith)

any-append_last :
    (p : SelectOption → Bool) (os : List SelectOption) (o : SelectOption)
    → p o ≡ true
    → any p (os ++ o ∷ []) ≡ true
any-append_last p [] o h = rw h
any-append_last p (x ∷ os) o h = ground (arith, any-append_last p os o h)

offered :
    (selected : String) (o : SelectOption) (os : List SelectOption)
    → str_eq o.value all_filter ≡ true
    → (str_eq selected all_filter || has_value selected (o ∷ os)) ≡ true
    → has_value selected (o ∷ os) ≡ true
offered selected o os h e = elim (Bool-cases (str_eq selected all_filter)) [
  | inl a ↦ rw ((eq_iff selected all_filter).0 a, h)
  | inr a ↦ rw a at e
]

append_selected_option-has_value :
    (o : SelectOption) (os : List SelectOption) (selected label : String)
    → str_eq o.value all_filter ≡ true
    → has_value selected (append_selected_option (o ∷ os) selected label) ≡ true
unfolding append_selected_option
append_selected_option-has_value o os selected label h =
    elim (Bool-cases (str_eq selected all_filter || has_value selected (o ∷ os))) [
      | inl e ↦ rw e (offered selected o os h e)
      | inr e ↦ rw e (
          any-append_last (λ x. str_eq x.value selected) (o ∷ os) _
            ((eq_iff selected selected).1 refl))
    ]

-- The filters that are in force are the ones that were chosen, whatever the backend offers: a choice
-- that it no longer offers is added to the list.
effective_filter_lem :
    (all selected : String) (models : List String) (sources : List SelectOption)
    → (effective_filter (model_options all models selected) selected ≡ selected)
      × (effective_filter (source_options all sources selected) selected ≡ selected)
unfolding effective_filter model_options source_options
effective_filter_lem all selected models sources = (
  rw (append_selected_option-has_value _ _ selected _ refl),
  rw (append_selected_option-has_value _ _ selected _ refl),
)
