-- ===== src/Usage/Chart/Twice.antt =====
-- The chart by day with the line of all rows alone: what the line holds under a day.
use daili_usage_keeper_north.Base.{
  ◌≡◌, refl, sym, ap, ◌∙◌, String, Bool, true, false, not, ◌&&◌, Option, none, some, List, [], ◌∷◌,
  foldl, Dict, lookup, update, lookup-update, ℤ, pos, ◌+ℤ◌, or_else, str_eq, eq_iff, int_laws,
  if◌then◌else◌, Bool-cases, inl, inr, is_blank, zero_+ℤ,
}
use daili_usage_keeper_north.Host.{Host}
use daili_usage_keeper_north.Usage.{DetailRecord, start_of_day_key}
use daili_usage_keeper_north.Usage.Chart.{
  Metric, Lines, add_to_line, add_row, line_key_of, value_of, add_day_row,
}

-- The value of the line of all rows under a key.
abbrev pub amount_at : String → Lines → ℤ
amount_at k m = or_else (lookup k (or_else (lookup "all" m) [])) (pos 0)

abbrev pub all_lines : List String
all_lines = "all" ∷ []

value_at-update :
    (k key : String) (value : ℤ) (line : Dict ℤ)
    → or_else (lookup k (update key (λ v. or_else v (pos 0) +ℤ value) line)) (pos 0) ≡ (
        if str_eq key k
        then or_else (lookup k line) (pos 0) +ℤ value
        else or_else (lookup k line) (pos 0))
value_at-update k key value line = elim (Bool-cases (str_eq key k)) [
  | inl e ↦
      rw (lookup-update k key (λ v. or_else v (pos 0) +ℤ value) line, e)
        (ap (λ j. or_else (lookup j line) (pos 0) +ℤ value) ((eq_iff key k).0 e))
  | inr e ↦ rw (lookup-update k key (λ v. or_else v (pos 0) +ℤ value) line, e) refl
]

amount_at-add_to_line :
    (k key : String) (value : ℤ) (m : Lines)
    → amount_at k (add_to_line "all" key value m)
      ≡ (if str_eq key k then amount_at k m +ℤ value else amount_at k m)
unfolding add_to_line
amount_at-add_to_line k key value m =
    rw
      (lookup-update "all" "all"
        (λ given. update key (λ v. or_else v (pos 0) +ℤ value) (or_else given [])) m)
      (value_at-update k key value (or_else (lookup "all" m) []))

all_or_all : (o : Option String) → str_eq "all" (or_else o "") ≡ true → or_else o "all" ≡ "all"
all_or_all none e = refl
all_or_all (some s) e = sym ((eq_iff "all" s).0 e)

line_key_of-all : (d : DetailRecord) → line_key_of all_lines d ≡ "all"
line_key_of-all d = elim (Bool-cases (str_eq "all" (or_else d.model_name ""))) [
  | inl e ↦ rw e (all_or_all d.model_name e)
  | inr e ↦ elim (Bool-cases (str_eq "all" (or_else d.api_name ""))) [
    | inl f ↦ rw (e, f) (all_or_all d.api_name f)
    | inr f ↦ rw (e, f)
  ]
]

twice :
    (b : Bool) (a v : ℤ)
    → (if b then (if b then a +ℤ v else a) +ℤ v else if b then a +ℤ v else a)
      ≡ (if b then a +ℤ v +ℤ v else a)
twice true a v = refl
twice false a v = refl

regroup :
    (b : Bool) (a v s : ℤ)
    → (if b then a +ℤ v +ℤ v else a) +ℤ (s +ℤ s)
      ≡ a +ℤ ((if b then v +ℤ s else s) +ℤ (if b then v +ℤ s else s))
regroup true a v s = omega int_laws
regroup false a v s = refl

add_row-all :
    (metric : Metric) (key k : String) (d : DetailRecord) (m : Lines)
    → amount_at k (add_row all_lines metric key d m) ≡ (
        if str_eq key k
        then amount_at k m +ℤ value_of metric d +ℤ value_of metric d
        else amount_at k m)
unfolding add_row
add_row-all metric key k d m =
    rw
      (
        line_key_of-all d,
        amount_at-add_to_line k key (value_of metric d)
            (add_to_line "all" key (value_of metric d) m),
        amount_at-add_to_line k key (value_of metric d) m,
      )
      (twice (str_eq key k) (amount_at k m) (value_of metric d))

module _ (h : Host) (metric : Metric) where
  -- What the rows of a day add up to.
  abbrev pub day_sum : String → List DetailRecord → ℤ
  day_sum k [] = pos 0
  day_sum k (d ∷ ds) =
      if not (is_blank (start_of_day_key h d.timestamp))
        && str_eq (start_of_day_key h d.timestamp) k
      then value_of metric d +ℤ day_sum k ds
      else day_sum k ds

  abbrev counts : String → DetailRecord → Bool
  counts k d =
      not (is_blank (start_of_day_key h d.timestamp)) && str_eq (start_of_day_key h d.timestamp) k

  add_day_row-all :
      (k : String) (m : Lines) (d : DetailRecord)
      → amount_at k (add_day_row h all_lines metric m d) ≡ (
          if counts k d
          then amount_at k m +ℤ value_of metric d +ℤ value_of metric d
          else amount_at k m)
  unfolding add_day_row
  add_day_row-all k m d = elim (Bool-cases (is_blank (start_of_day_key h d.timestamp))) [
    | inl e ↦ rw e refl
    | inr e ↦ rw e (add_row-all metric (start_of_day_key h d.timestamp) k d m)
  ]

  foldl-add_day_row :
      (k : String) (m : Lines) (details : List DetailRecord)
      → amount_at k (foldl (add_day_row h all_lines metric) m details)
        ≡ amount_at k m +ℤ (day_sum k details +ℤ day_sum k details)
  foldl-add_day_row k m [] = omega int_laws
  foldl-add_day_row k m (d ∷ ds) =
      rw (foldl-add_day_row k (add_day_row h all_lines metric m d) ds, add_day_row-all k m d)
        (regroup (counts k d) (amount_at k m) (value_of metric d) (day_sum k ds))

  -- In the chart by day, with the line of all rows alone, that line holds under each day twice what the rows of the day add
  -- up to.
  pub add_day_row-doubles :
      (k : String) (details : List DetailRecord)
      → amount_at k (foldl (add_day_row h all_lines metric) [] details)
        ≡ day_sum k details +ℤ day_sum k details
  unfolding lookup
  add_day_row-doubles k details = foldl-add_day_row k [] details ∙ zero_+ℤ _
