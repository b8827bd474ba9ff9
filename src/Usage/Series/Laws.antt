-- ===== src/Usage/Series/Laws.antt =====
-- The series of tokens by hour lose and invent nothing.
use daili_usage_keeper_north.Base.{
  ℕ, zero, suc, ◌<◌, ◌≡◌, refl, ap, sym, ◌∙◌, none, some, List, [], ◌∷◌, foldl, length, length-map,
  ℤ, pos, ◌+ℤ◌, int_laws, arith, pos_part, neg_part, Option-cases, inl, inr, +ℤ_zero, zero_+ℤ,
  +ℤ_assoc,
}
use daili_usage_keeper_north.Host.{Host}
use daili_usage_keeper_north.Usage.{DetailRecord}
use daili_usage_keeper_north.Usage.Chart.{HourlyWindow, bucket_of}
use daili_usage_keeper_north.Usage.Series.{
  ByCategory, add_at, index_of, bucket_index, add_tokens, zeros_for, hourly_tokens, input_of,
  output_of, cached_of_row, reasoning_of,
}

-- The sum of a list of numbers.
abbrev pub total_of : List ℤ → ℤ
total_of [] = pos 0
total_of (x ∷ xs) = x +ℤ total_of xs

total_of-add_at :
    (i : ℕ) (n : ℤ) (xs : List ℤ) → i < length xs → total_of (add_at i n xs) ≡ total_of xs +ℤ n
total_of-add_at i n [] h = ground arith
total_of-add_at zero n (x ∷ xs) h = omega int_laws
total_of-add_at (suc i) n (x ∷ xs) h =
    let ih = total_of-add_at i n xs (omega arith) in
    omega (int_laws, ap pos_part ih, ap neg_part ih)

length-add_at : (i : ℕ) (n : ℤ) (xs : List ℤ) → length (add_at i n xs) ≡ length xs
length-add_at i n [] = refl
length-add_at zero n (x ∷ xs) = refl
length-add_at (suc i) n (x ∷ xs) = omega (arith, length-add_at i n xs)

total_of-zeros_for : (hours : List ℤ) → total_of (zeros_for hours) ≡ pos 0
total_of-zeros_for [] = refl
total_of-zeros_for (t ∷ ts) = rw (total_of-zeros_for ts) (zero_+ℤ (pos 0))

bucket_index-lt :
    (window : HourlyWindow) (start : ℤ) (i : ℕ)
    → bucket_index window start ≡ some i
    → i < length window.hours
bucket_index-lt window start i e = ground arith

in_range : (i : ℕ) (xs ys : List ℤ) → length xs ≡ length ys → i < length ys → i < length xs
in_range i xs ys e l = omega arith

module _ (h : Host) (window : HourlyWindow) where
  index_of-lt : (d : DetailRecord) (i : ℕ) → index_of h window d ≡ some i → i < length window.hours
  unfolding index_of
  index_of-lt d i e = elim (Option-cases (bucket_of h window d)) [
    | inl f ↦ ground arith
    | inr (start, f) ↦ bucket_index-lt window start i (rw (index_of, f) at e)
  ]

  -- What the rows that fall into a bucket of the window add up to.
  abbrev pub window_sum : (DetailRecord → ℤ) → List DetailRecord → ℤ
  window_sum f [] = pos 0
  window_sum f (d ∷ ds) = elim (index_of h window d) [
    | none ↦ window_sum f ds
    | some i ↦ f d +ℤ window_sum f ds
  ]

  -- One of the four lists alone.
  abbrev add_one : (DetailRecord → ℤ) → List ℤ → DetailRecord → List ℤ
  add_one f xs d = elim (index_of h window d) [ none ↦ xs | some i ↦ add_at i (f d) xs ]

  abbrev spread : ByCategory → List DetailRecord → ByCategory
  spread acc ds = record {
    input = foldl (add_one input_of) acc.input ds;
    output = foldl (add_one output_of) acc.output ds;
    cached = foldl (add_one cached_of_row) acc.cached ds;
    reasoning = foldl (add_one reasoning_of) acc.reasoning ds;
  }

  add_tokens-spread :
      (acc : ByCategory) (d : DetailRecord) → add_tokens h window acc d ≡ spread acc (d ∷ [])
  unfolding add_tokens
  add_tokens-spread acc d = elim (Option-cases (index_of h window d)) [
    | inl e ↦ rw (add_tokens, add_one, e)
    | inr (i, e) ↦ rw (add_tokens, add_one, e)
  ]

  foldl-add_tokens :
      (acc : ByCategory) (ds : List DetailRecord)
      → foldl (add_tokens h window) acc ds ≡ spread acc ds
  foldl-add_tokens acc [] = refl
  foldl-add_tokens acc (d ∷ ds) =
      foldl-add_tokens (add_tokens h window acc d) ds
      ∙ ap (λ a. spread a ds) (add_tokens-spread acc d)

  total_of-add_one :
      (f : DetailRecord → ℤ) (xs : List ℤ) (ds : List DetailRecord)
      → length xs ≡ length window.hours
      → total_of (foldl (add_one f) xs ds) ≡ total_of xs +ℤ window_sum f ds
  total_of-add_one f xs [] e = sym (+ℤ_zero (total_of xs))
  total_of-add_one f xs (d ∷ ds) e = elim (Option-cases (index_of h window d)) [
    | inl a ↦ rw (add_one, window_sum, a) (total_of-add_one f xs ds e)
    | inr (i, a) ↦
        rw (add_one, window_sum, a)
          (total_of-add_one f (add_at i (f d) xs) ds (length-add_at i (f d) xs ∙ e)
            ∙ ap (λ t. t +ℤ window_sum f ds)
                (total_of-add_at i (f d) xs (in_range i xs window.hours e (index_of-lt d i a)))
            ∙ +ℤ_assoc (total_of xs) (f d) (window_sum f ds))
  ]

  whole :
      (f : DetailRecord → ℤ) (ds : List DetailRecord)
      → total_of (foldl (add_one f) (zeros_for window.hours) ds) ≡ window_sum f ds
  whole f ds =
      total_of-add_one f (zeros_for window.hours) ds (length-map window.hours (λ t. pos 0))
      ∙ ap (λ t. t +ℤ window_sum f ds) (total_of-zeros_for window.hours)
      ∙ zero_+ℤ (window_sum f ds)

  -- In each of the four series by hour the values add up to the sum of that kind of tokens over the rows
  -- that fall into a bucket of the window.
  hourly_tokens-total :
      (ds : List DetailRecord)
      → let series = (hourly_tokens h window ds).data_by_category in
        (total_of series.input ≡ window_sum input_of ds)
        × (total_of series.output ≡ window_sum output_of ds)
        × (total_of series.cached ≡ window_sum cached_of_row ds)
        × (total_of series.reasoning ≡ window_sum reasoning_of ds)
  unfolding hourly_tokens
  hourly_tokens-total ds =
      rw (foldl-add_tokens _ ds)
        (whole input_of ds, whole output_of ds, whole cached_of_row ds, whole reasoning_of ds)
