-- ===== src/Usage/Chart/Laws.antt =====
-- What the charts show of rows: where the keys of the buckets do not meet, and where a row counts
-- twice.
use Prim.Native.String.{count}
use text.Mathlib.TextLemmas.{length-append}
use daili_usage_keeper_north.Base.{
  ℕ, suc, ◌≡◌, ◌≢◌, ◌⊎◌, ◌∙◌, refl, ap, String, none, List, [], ◌∷◌, map, foldl, Dict, lookup,
  update, lookup-update, ℤ, pos, ◌+ℤ◌, or_else, str_eq, eq_iff, All, arith, Bool-cases,
  Option-cases, inl, inr, ◌<>◌,
}
use daili_usage_keeper_north.Host.{Host}
use daili_usage_keeper_north.Usage.{DetailRecord, format_hour_bucket_key}
use daili_usage_keeper_north.Usage.Chart.{
  HourlyWindow, Metric, Lines, add_to_line, add_row, line_key_of, value_of, includes, datasets_from,
  bucket_of, add_hour_row, hour_chart,
}

-- What `toISOString` promises: 24 characters, or 27 for a year of six digits, so that the first 13 are 13.
pub record HasIsoHours (h : Host) : Type 0 where
  pub size : (t : ℤ) → count (h.iso_hour t) ≡ 13
  pub full : (t : ℤ) → (count (h.iso_string t) ≡ 24) ⊎ (count (h.iso_string t) ≡ 27)

-- No line has a value under a key of 20 characters.
abbrev pub LacksHourKeys : Lines → Type 0
LacksHourKeys m = All (λ e. (k : String) → count k ≡ 20 → lookup k e.1 ≡ none) m

lookup-other-update :
    (k key : String) (value : ℤ) (line : Dict ℤ)
    → count key ≢ 20
    → count k ≡ 20
    → lookup k line ≡ none
    → lookup k (update key (λ v. or_else v (pos 0) +ℤ value) line) ≡ none
lookup-other-update k key value line a b e = elim (Bool-cases (str_eq key k)) [
  | inl f ↦ absurd (a (ap count ((eq_iff key k).0 f) ∙ b))
  | inr f ↦ rw (lookup-update k key (λ v. or_else v (pos 0) +ℤ value) line, f) e
]

no_entry : (k : String) → lookup {V = ℤ} k [] ≡ none
unfolding lookup
no_entry k = refl

add_to_line-LacksHourKeys :
    (label key : String) (value : ℤ) (m : Lines)
    → count key ≢ 20
    → LacksHourKeys m
    → LacksHourKeys (add_to_line label key value m)
unfolding add_to_line update
add_to_line-LacksHourKeys label key value [] a h =
    (λ k b. lookup-other-update k key value [] a b (no_entry k), tt)
add_to_line-LacksHourKeys label key value ((name, line) ∷ m) a h =
    elim (Bool-cases (str_eq name label)) [
      | inl e ↦ rw e (λ k b. lookup-other-update k key value line a b (h.0 k b), h.1)
      | inr e ↦ rw e (h.0, add_to_line-LacksHourKeys label key value m a h.1)
    ]

add_row-LacksHourKeys :
    (lines : List String) (metric : Metric) (key : String) (d : DetailRecord) (m : Lines)
    → count key ≢ 20
    → LacksHourKeys m
    → LacksHourKeys (add_row lines metric key d m)
unfolding add_row
add_row-LacksHourKeys lines metric key d m a h =
    let own = add_to_line-LacksHourKeys (line_key_of lines d) key (value_of metric d) m a h in
    elim (Bool-cases (includes lines "all")) [
      | inl e ↦ rw e (add_to_line-LacksHourKeys "all" key (value_of metric d) _ a own)
      | inr e ↦ elim (Bool-cases (str_eq (line_key_of lines d) "all")) [
        | inl f ↦ rw (e, f) h
        | inr f ↦ rw (e, f) own
      ]
    ]

module _ (h : Host) (iso : HasIsoHours h) where
  iso_string_size : (t : ℤ) → count (h.iso_string t) ≢ 20
  iso_string_size t e = elim (iso.full t) [ inl short ↦ omega arith | inr long ↦ omega arith ]

  foldl-LacksHourKeys :
      (lines : List String) (metric : Metric) (window : HourlyWindow) (m : Lines)
      (details : List DetailRecord)
      → LacksHourKeys m
      → LacksHourKeys (foldl (add_hour_row h lines metric window) m details)
  unfolding add_hour_row
  foldl-LacksHourKeys lines metric window m [] f = f
  foldl-LacksHourKeys lines metric window m (d ∷ ds) f =
      foldl-LacksHourKeys lines metric window (add_hour_row h lines metric window m d) ds
        (elim (Option-cases (bucket_of h window d)) [
          | inl e ↦ rw (add_hour_row, e) f
          | inr (start, e) ↦
              rw (add_hour_row, e)
                (add_row-LacksHourKeys lines metric (h.iso_string start) d m (iso_string_size start)
                  f)
        ])

  zeros :
      (line : Dict ℤ)
      → ((k : String) → count k ≡ 20 → lookup k line ≡ none)
      → (hours : List ℤ)
      → All
          (λ v. v ≡ pos 0)
          (map (λ k. or_else (lookup k line) (pos 0)) (map (format_hour_bucket_key h) hours))
  unfolding format_hour_bucket_key
  zeros line f [] = tt
  zeros line f (t ∷ ts) = (
    rw (
        f (h.iso_hour t <> ":00:00Z")
          (omega (arith, length-append (h.iso_hour t) ":00:00Z", iso.size t))),
    zeros line f ts,
  )

  datasets_from-zero :
      (i : ℕ) (hours : List ℤ) (m : Lines)
      → LacksHourKeys m
      → All
          (λ s. All (λ v. v ≡ pos 0) s.values)
          (datasets_from i (map (format_hour_bucket_key h) hours) m)
  unfolding datasets_from
  datasets_from-zero i hours [] f = tt
  datasets_from-zero i hours ((label, line) ∷ m) f =
      (zeros line f.0 hours, datasets_from-zero (suc i) hours m f.1)

  -- Given that an ISO string has 24 or 27 characters, and its part up to the hour 13: whatever the rows
  -- are, every value of the chart by hour is 0: the buckets are filled under the full ISO string of the
  -- hour and read under the shorter key, which never meet.
  pub hour_chart-zero :
      (lines : List String) (metric : Metric) (window : HourlyWindow) (details : List DetailRecord)
      → All (λ s. All (λ v. v ≡ pos 0) s.values) (hour_chart h lines metric window details).datasets
  unfolding hour_chart
  hour_chart-zero lines metric window details =
      datasets_from-zero 0 window.hours _ (foldl-LacksHourKeys lines metric window [] details tt)
