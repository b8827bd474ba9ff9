-- ===== src/Pricing.antt =====
-- `setModelPrices` of web/src/components/usage/hooks/usePricingData.ts: the new prices are shown and
-- saved at once, the differences are sent to the server, and a failure brings the old prices back.
-- `same` is `===` on prices.
pub mod Form
pub mod Sync
pub mod Tests
use daili_usage_keeper_north.Base.{
  ℕ, String, Bool, true, false, not, ◌&&◌, Option, none, some, List, [], ◌∷◌, ◌++◌, map, Dict,
  lookup, if◌then◌else◌, filter, any, str_eq, keys, ◌==◌, is_blank, ◌<>◌,
}
use daili_usage_keeper_north.Usage.Stats.{ModelPrice}
use daili_usage_keeper_north.Store.{Failure, api_error, plain_error, no_error}

-- A request to the server.
pub data PriceRequest (C : Type 0) : Type 0 where
  update_price : String → ModelPrice C → PriceRequest C
  delete_price : String → PriceRequest C

pub record PricingState (C : Type 0) : Type 0 where
  pub model_prices : Dict (ModelPrice C)
  -- What `saveModelPrices` wrote.
  pub saved : Dict (ModelPrice C)
  pub last_refreshed_at : Option ℕ
  pub auth_required : Bool
  pub notification : Option String

-- `new Set(Object.keys(prices)).has(model)`
abbrev pub has_model : {C : Type 0} → String → Dict (ModelPrice C) → Bool
has_model k prices = any (λ e. str_eq e.0 k) prices

module _ {C : Type 0} (same : C → C → Bool) where
  unfoldable pub prices_equal : Option (ModelPrice C) → ModelPrice C → Bool
  prices_equal none right = false
  prices_equal (some left) right =
      same left.prompt right.prompt
      && same left.completion right.completion
      && same left.cache right.cache

  abbrev pub is_changed : Dict (ModelPrice C) → String × ModelPrice C → Bool
  is_changed previous e = not (prices_equal (lookup e.0 previous) e.1)

  abbrev pub is_gone : Dict (ModelPrice C) → String → Bool
  is_gone prices k = not (has_model k prices)

  unfoldable pub price_requests : Dict (ModelPrice C) → Dict (ModelPrice C) → List (PriceRequest C)
  unfolding prices_equal lookup
  price_requests previous prices =
      map (λ e. update_price e.0 e.1) (filter (is_changed previous) prices)
      ++ map delete_price (filter (is_gone prices) (keys previous))

  -- What runs before the `await`, and the requests that it awaits.
  unfoldable pub set_model_prices :
      Dict (ModelPrice C) → PricingState C → PricingState C × List (PriceRequest C)
  unfolding price_requests
  set_model_prices prices s =
      (record s { model_prices = prices; saved = prices }, price_requests s.model_prices prices)

module _ {C : Type 0} where
  -- Every request came through.
  unfoldable pub prices_sent : ℕ → PricingState C → PricingState C
  prices_sent now s = record s { last_refreshed_at = some now }

  -- `upload_failed` is the translated text; `previous` is what the closure holds.
  abbrev pub notify : String → String → PricingState C → PricingState C
  notify upload_failed message s = record s {
    notification = some (upload_failed <> (if is_blank message then "" else ": " <> message));
  }

  unfoldable pub prices_failed :
      String → Dict (ModelPrice C) → Failure → PricingState C → PricingState C
  prices_failed upload_failed previous failure s =
      let back = record s { model_prices = previous; saved = previous } in
      elim failure [
        | api_error status message ↦
            if status == 401
            then record back { auth_required = true }
            else notify upload_failed message back
        | plain_error message ↦ notify upload_failed message back
        | no_error ↦ notify upload_failed "" back
      ]
