-- ===== src/Pricing/Tests.antt =====
-- The theorems about the prices at concrete prices.
use daili_usage_keeper_north.Base.{ℕ, ◌≡◌, refl, none, some, [], ◌∷◌, Dict, lookup, ◌==◌, false}
use daili_usage_keeper_north.Usage.Stats.{ModelPrice}
use daili_usage_keeper_north.Store.{Failure, api_error}
use daili_usage_keeper_north.Pricing.{
  PricingState, update_price, delete_price, price_requests, set_model_prices, prices_sent,
  prices_failed,
}
use daili_usage_keeper_north.Pricing.Sync.{IsObject, set_model_prices_lem, is_unauthorized}

abbrev price : ℕ → ModelPrice ℕ
price n = record { prompt = n; completion = n; cache = 0 }

abbrev old_prices : Dict (ModelPrice ℕ)
old_prices = ("kept", price 1) ∷ ("changed", price 2) ∷ ("gone", price 3) ∷ []

abbrev new_prices : Dict (ModelPrice ℕ)
new_prices = ("kept", price 1) ∷ ("changed", price 4) ∷ ("added", price 5) ∷ []

requests_sent :
    price_requests ◌==◌ old_prices new_prices
    ≡ update_price "changed" (price 4) ∷ update_price "added" (price 5) ∷ delete_price "gone" ∷ []
unfolding price_requests
requests_sent = refl

new_prices-IsObject : IsObject new_prices
unfolding lookup
new_prices-IsObject = (refl, (refl, (refl, tt)))

abbrev state : PricingState ℕ
state = record {
  model_prices = old_prices;
  saved = old_prices;
  last_refreshed_at = some 1;
  auth_required = false;
  notification = none;
}

abbrev refused : Failure
refused = api_error 401 "no"

set_model_prices_example :
    let sent = (set_model_prices ◌==◌ new_prices state).0 in
    let failed = prices_failed "Failed" state.model_prices refused sent in
    (sent.model_prices ≡ new_prices)
    × (sent.saved ≡ new_prices)
    × ((prices_sent 9 sent).model_prices ≡ new_prices)
    × ((prices_sent 9 sent).last_refreshed_at ≡ some 9)
    × (failed.model_prices ≡ state.model_prices)
    × (failed.saved ≡ state.model_prices)
    × (failed.last_refreshed_at ≡ state.last_refreshed_at)
    × (state.auth_required ≡ false → failed.auth_required ≡ is_unauthorized refused)
set_model_prices_example = set_model_prices_lem ◌==◌ new_prices state "Failed" refused 9
