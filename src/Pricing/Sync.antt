-- ===== src/Pricing/Sync.antt =====
-- The requests of `setModelPrices` bring the server from the old prices to the new ones.
use daili_usage_keeper_north.Base.{
  ◌≡◌, refl, sym, ap, ◌∙◌, String, Bool, true, false, not, ◌⊎◌, inl, inr, Option, none, some, List,
  [], ◌∷◌, ◌++◌, map, Dict, lookup, if◌then◌else◌, filter, any, str_eq, eq_iff, keys, All,
  All-append, arith, Bool-cases, Option-cases, ℕ, ◌==◌,
}
use daili_usage_keeper_north.Usage.Stats.{ModelPrice}
use daili_usage_keeper_north.Store.{Failure, api_error, plain_error, no_error}
use daili_usage_keeper_north.Pricing.{
  PricingState, set_model_prices, prices_failed, prices_sent, PriceRequest, update_price,
  delete_price, has_model, prices_equal, is_changed, is_gone, price_requests,
}

-- The prices that a server holds.
abbrev pub Server : Type 0 → Type 0
Server C = String → Option (ModelPrice C)

module _ {C : Type 0} where
  abbrev pub target : PriceRequest C → String
  target (update_price k p) = k
  target (delete_price k) = k

  abbrev pub result : PriceRequest C → Option (ModelPrice C)
  result (update_price k p) = some p
  result (delete_price k) = none

  -- A server that does what it is asked to: it writes the price of one model, or forgets it.
  abbrev pub serve : Server C → PriceRequest C → Server C
  serve f r k = if str_eq (target r) k then result r else f k

  abbrev pub serve_all : Server C → List (PriceRequest C) → Server C
  serve_all f [] = f
  serve_all f (r ∷ rs) = serve_all (serve f r) rs

  abbrev targets : String → PriceRequest C → Bool
  targets k r = str_eq (target r) k

  abbrev Agrees : String → Option (ModelPrice C) → PriceRequest C → Type 0
  Agrees k v r = targets k r ≡ true → result r ≡ v

  -- If all the requests about a model ask for one result, and there is one or the server had that
  -- result before, it has it in the end.
  serve_all-agree :
      (k : String) (v : Option (ModelPrice C)) (rs : List (PriceRequest C)) (f : Server C)
      → All (Agrees k v) rs
      → (f k ≡ v) ⊎ (any (targets k) rs ≡ true)
      → serve_all f rs k ≡ v
  serve_all-agree k v [] f h (inl e) = e
  serve_all-agree k v [] f h (inr e) = cc
  serve_all-agree k v (r ∷ rs) f h e = elim (Bool-cases (targets k r)) [
    | inl t ↦ serve_all-agree k v rs (serve f r) h.1 (inl (rw t (h.0 t)))
    | inr t ↦
        serve_all-agree k v rs (serve f r) h.1
          (elim e [ inl a ↦ inl (rw t a) | inr a ↦ inr (rw t at a) ])
  ]

  any-append_left :
      (p : PriceRequest C → Bool) (xs ys : List (PriceRequest C))
      → any p xs ≡ true
      → any p (xs ++ ys) ≡ true
  any-append_left p [] ys h = cc
  any-append_left p (x ∷ xs) ys h = ground (arith, any-append_left p xs ys)

  any-append_right :
      (p : PriceRequest C → Bool) (xs ys : List (PriceRequest C))
      → any p ys ≡ true
      → any p (xs ++ ys) ≡ true
  any-append_right p [] ys h = h
  any-append_right p (x ∷ xs) ys h = ground (arith, any-append_right p xs ys h)

  -- Every entry of an object is what the object holds under its key.
  abbrev pub IsObject : Dict (ModelPrice C) → Type 0
  IsObject prices = All (λ e. lookup e.0 prices ≡ some e.1) prices

  lookup-no_model :
      (k : String) (prices : Dict (ModelPrice C))
      → has_model k prices ≡ false
      → lookup k prices ≡ none
  unfolding lookup
  lookup-no_model k [] h = refl
  lookup-no_model k ((j, p) ∷ m) h = ground (arith, lookup-no_model k m)

  has_model-lookup :
      (k : String) (prices : Dict (ModelPrice C))
      → lookup k prices ≡ none
      → has_model k prices ≡ false
  unfolding lookup
  has_model-lookup k [] h = refl
  has_model-lookup k ((j, p) ∷ m) h = ground (arith, has_model-lookup k m)

  of_some : (q p : ModelPrice C) → some q ≡ some p → q ≡ p
  of_some q p h = cc

  module _ (same : C → C → Bool) where
    updates-agree :
        (k : String) (previous prices rest : Dict (ModelPrice C))
        → All (λ e. lookup e.0 prices ≡ some e.1) rest
        → All
            (Agrees k (lookup k prices))
            (map (λ e. update_price e.0 e.1) (filter (is_changed same previous) rest))
    updates-agree k previous prices [] h = tt
    updates-agree k previous prices ((j, p) ∷ rest) h =
        let ih = updates-agree k previous prices rest h.1 in
        let here =
          λ (t : str_eq j k ≡ true). sym h.0 ∙ ap (λ i. lookup i prices) ((eq_iff j k).0 t) in
        elim (Bool-cases (is_changed same previous (j, p))) [
          | inl e ↦ rw e (here, ih)
          | inr e ↦ rw e ih
        ]

    deletes-agree :
        (k : String) (prices : Dict (ModelPrice C)) (ks : List String)
        → All (Agrees k (lookup k prices)) (map delete_price (filter (is_gone same prices) ks))
    deletes-agree k prices [] = tt
    deletes-agree k prices (j ∷ ks) = elim (Bool-cases (has_model j prices)) [
      | inl e ↦ rw e (deletes-agree k prices ks)
      | inr e ↦ rw e (
        (λ t. sym (lookup-no_model j prices e) ∙ ap (λ i. lookup i prices) ((eq_iff j k).0 t)),
        deletes-agree k prices ks,
      )
    ]

    entry_changed :
        (j : String) (q : ModelPrice C) (k : String) (p : ModelPrice C)
        (previous : Dict (ModelPrice C))
        → j ≡ k
        → q ≡ p
        → prices_equal same (lookup k previous) p ≡ false
        → prices_equal same (lookup j previous) q ≡ false
    entry_changed j q k p previous a b e = cc

    update-sent :
        (k : String) (p : ModelPrice C) (previous rest : Dict (ModelPrice C))
        → lookup k rest ≡ some p
        → prices_equal same (lookup k previous) p ≡ false
        → any (targets k) (map (λ e. update_price e.0 e.1) (filter (is_changed same previous) rest))
          ≡ true
    unfolding lookup
    update-sent k p previous [] h e = cc
    update-sent k p previous ((j, q) ∷ rest) h e = elim (Bool-cases (str_eq j k)) [
      | inl t ↦
          let changed : is_changed same previous (j, q) ≡ true =
            ap not
              (entry_changed j q k p previous ((eq_iff j k).0 t) (of_some q p (rw t at h)) e) in
          rw (changed, t)
      | inr t ↦
          let ih = update-sent k p previous rest (rw t at h) e in
          elim (Bool-cases (is_changed same previous (j, q))) [
            | inl c ↦ rw (c, t) ih
            | inr c ↦ rw c ih
          ]
    ]

    delete-sent :
        (k : String) (p : ModelPrice C) (prices rest : Dict (ModelPrice C))
        → lookup k rest ≡ some p
        → has_model k prices ≡ false
        → any (targets k) (map delete_price (filter (is_gone same prices) (keys rest))) ≡ true
    unfolding lookup
    delete-sent k p prices [] h e = cc
    delete-sent k p prices ((j, q) ∷ rest) h e = elim (Bool-cases (str_eq j k)) [
      | inl t ↦
          let gone : has_model j prices ≡ false =
            ap (λ i. has_model i prices) ((eq_iff j k).0 t) ∙ e in
          rw (gone, t)
      | inr t ↦
          let ih = delete-sent k p prices rest (rw t at h) e in
          elim (Bool-cases (has_model j prices)) [ inl c ↦ rw c ih | inr c ↦ rw (c, t) ih ]
    ]

    prices_equal_lem :
        ((a b : C) → same a b ≡ true → a ≡ b)
        → (o : Option (ModelPrice C)) (p : ModelPrice C) → prices_equal same o p ≡ true
        → o ≡ some p
    unfolding prices_equal
    prices_equal_lem h none p e = cc
    prices_equal_lem h (some q) p e =
        ground (arith, h q.prompt p.prompt, h q.completion p.completion, h q.cache p.cache)

    -- What the requests leave alone is as it should be, and what is not is asked for.
    sent_or_equal :
        ((a b : C) → same a b ≡ true → a ≡ b)
        → (k : String) (previous prices : Dict (ModelPrice C))
        → (lookup k previous ≡ lookup k prices)
          ⊎ (any (targets k) (price_requests same previous prices) ≡ true)
    unfolding price_requests
    sent_or_equal h k previous prices = elim (Option-cases (lookup k prices)) [
      | inl none_now ↦ elim (Option-cases (lookup k previous)) [
        | inl none_before ↦ inl (none_before ∙ sym none_now)
        | inr (p, before) ↦ inr (
            any-append_right (targets k) _ _
              (delete-sent k p prices previous before (has_model-lookup k prices none_now)))
      ]
      | inr (p, now) ↦ elim (Bool-cases (prices_equal same (lookup k previous) p)) [
        | inl e ↦ inl (prices_equal_lem h (lookup k previous) p e ∙ sym now)
        | inr e ↦ inr (any-append_left (targets k) _ _ (update-sent k p previous prices now e))
      ]
    ]

    -- If `===` holds only between equal prices, the new prices are an object, and the server holds the
    -- old ones, then after the requests, served in the order in which they are sent, it holds the new
    -- price of every model and no other.
    pub price_requests-serve_all :
        ((a b : C) → same a b ≡ true → a ≡ b)
        → (previous prices : Dict (ModelPrice C)) (server : Server C) → IsObject prices
        → ((k : String) → server k ≡ lookup k previous)
        → (k : String) → serve_all server (price_requests same previous prices) k ≡ lookup k prices
    unfolding price_requests
    price_requests-serve_all h previous prices server object held k =
        serve_all-agree k (lookup k prices) (price_requests same previous prices) server
          (All-append (Agrees k (lookup k prices)) _ _
            (updates-agree k previous prices prices object)
            (deletes-agree k prices (keys previous)))
          (elim (sent_or_equal h k previous prices) [ inl e ↦ inl (held k ∙ e) | inr e ↦ inr e ])

-- The failure is an `ApiError` with status 401.
abbrev pub is_unauthorized : Failure → Bool
is_unauthorized (api_error status message) = status == 401
is_unauthorized (plain_error message) = false
is_unauthorized no_error = false

-- Setting prices shows and saves the new ones, and success keeps them; whatever failure follows shows
-- and saves the ones of before, asks for a login exactly when it is a 401, and leaves the time of the
-- last refresh as it was.
pub set_model_prices_lem :
    {C : Type 0} (same : C → C → Bool) (prices : Dict (ModelPrice C)) (s : PricingState C)
    (upload_failed : String) (failure : Failure) (now : ℕ)
    → let sent = (set_model_prices same prices s).0 in
      let failed = prices_failed upload_failed s.model_prices failure sent in
      (sent.model_prices ≡ prices)
      × (sent.saved ≡ prices)
      × ((prices_sent now sent).model_prices ≡ prices)
      × ((prices_sent now sent).last_refreshed_at ≡ some now)
      × (failed.model_prices ≡ s.model_prices)
      × (failed.saved ≡ s.model_prices)
      × (failed.last_refreshed_at ≡ s.last_refreshed_at)
      × (s.auth_required ≡ false → failed.auth_required ≡ is_unauthorized failure)
unfolding set_model_prices prices_failed prices_sent
set_model_prices_lem same prices s upload_failed (api_error status message) now = ground arith
set_model_prices_lem same prices s upload_failed (plain_error message) now = ground arith
set_model_prices_lem same prices s upload_failed no_error now = ground arith
