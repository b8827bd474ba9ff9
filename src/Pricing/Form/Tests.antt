-- ===== src/Pricing/Form/Tests.antt =====
-- The form of the prices at concrete prices, which are whole numbers.
use daili_usage_keeper_north.Base.{
  ℕ, ◌≡◌, refl, String, Bool, true, false, Option, none, some, [], ◌∷◌, Dict, lookup, ◌==◌, ==_iff,
  is_blank, trim, str_eq, if◌then◌else◌,
}
use daili_usage_keeper_north.Usage.Stats.{ModelPrice}
use daili_usage_keeper_north.Pricing.Form.{
  Numbers, PriceForm, read_price, handle_save_price, handle_delete_price, handle_open_edit,
  handle_save_edit,
}
use daili_usage_keeper_north.Pricing.Form.Keyed.{IsKeyed}
use daili_usage_keeper_north.Pricing.Form.Laws.{
  AsksFor, served, set_price, handle_save_price-served, handle_save_edit-handle_open_edit,
}

abbrev price : ℕ → ModelPrice ℕ
price n = record { prompt = n; completion = n; cache = 0 }

abbrev prices : Dict (ModelPrice ℕ)
prices = ("a", price 1) ∷ ("b", price 2) ∷ []

prices-IsKeyed : IsKeyed prices
prices-IsKeyed = (refl, (refl, tt))

abbrev server : String → Option (ModelPrice ℕ)
server k = lookup k prices

-- Three prices and their texts.
abbrev numbers : Numbers ℕ
numbers = record {
  read = λ s. if str_eq s "1" then some 1 else if str_eq s "0" then some 0 else none;
  print = λ n. if n == 1 then "1" else "0";
  is_non_negative = λ n. true;
}

abbrev form : PriceForm
form = record {
  selected_model = "c";
  prompt_price = "1";
  completion_price = "0";
  cache_price = " ";
  edit_model = none;
  edit_prompt = "";
  edit_completion = "";
  edit_cache = "";
}

handle_save_price-served_example :
    ((p : ModelPrice ℕ)
      → AsksFor numbers form p
      → served ◌==◌ prices server (handle_save_price numbers prices form).1 "c"
        ≡ set_price server "c" (some p) "c")
    × (((p : ModelPrice ℕ) → ¬ AsksFor numbers form p)
        → served ◌==◌ prices server (handle_save_price numbers prices form).1 "c" ≡ server "c")
    × (served ◌==◌ prices server (handle_delete_price prices "c") "c"
        ≡ set_price server "c" none "c")
handle_save_price-served_example =
    handle_save_price-served ◌==◌ (λ a b. (==_iff a b).0) prices prices-IsKeyed server (λ k. refl)
      numbers form "c"

form-AsksFor : AsksFor numbers form (record { prompt = 1; completion = 0; cache = 1 })
unfolding trim
form-AsksFor = (refl, (refl, refl), (refl, refl), (λ e. refl), (λ e. cc))

-- The cache has the price of the prompt.
saved_price :
    read_price numbers "1" "0" " " ≡ some (record { prompt = 1; completion = 0; cache = 1 })
unfolding read_price trim
saved_price = refl

-- Prices of 0 and 1 alone, which are printed and read back.
abbrev same : Bool → Bool → Bool
same true b = b
same false true = false
same false false = true

same-exact : (a b : Bool) → same a b ≡ true → a ≡ b
same-exact true true h = refl
same-exact true false h = cc
same-exact false true h = cc
same-exact false false h = refl

abbrev bits : Numbers Bool
bits = record {
  read = λ s. if str_eq s "1" then some true else if str_eq s "0" then some false else none;
  print = λ b. if b then "1" else "0";
  is_non_negative = λ b. true;
}

bits-prints : (b : Bool) → bits.read (bits.print b) ≡ some b
bits-prints true = refl
bits-prints false = refl

bits-visible : (b : Bool) → is_blank (trim (bits.print b)) ≡ false
unfolding trim
bits-visible true = refl
bits-visible false = refl

abbrev bit_price : ModelPrice Bool
bit_price = record { prompt = true; completion = false; cache = true }

abbrev bit_prices : Dict (ModelPrice Bool)
bit_prices = ("a", bit_price) ∷ []

abbrev bit_server : String → Option (ModelPrice Bool)
bit_server k = lookup k bit_prices

handle_save_edit-handle_open_edit_example :
    let saved = handle_save_edit bits bit_prices (handle_open_edit bits bit_prices "a" form) in
    (saved.0.edit_model ≡ none) × (served same bit_prices bit_server saved.1 "b" ≡ bit_server "b")
unfolding lookup
handle_save_edit-handle_open_edit_example =
    handle_save_edit-handle_open_edit same same-exact bit_prices (refl, tt) bit_server (λ k. refl)
      bits bits-prints bits-visible form "a" bit_price "b" refl refl refl refl refl
