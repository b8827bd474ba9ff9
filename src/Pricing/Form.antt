-- ===== src/Pricing/Form.antt =====
-- web/src/components/usage/PriceSettingsCard.tsx: the form that adds a price, the dialog that edits one
-- and the list of models. A handler returns the form and, if it calls `onPricesChange`, the new prices.
pub mod Keyed
pub mod Laws
pub mod Tests
use daili_usage_keeper_north.Base.{
  ℕ, String, Bool, true, false, not, Option, none, some, List, [], ◌∷◌, map, Dict, lookup, update,
  if◌then◌else◌, filter, str_eq, is_blank, trim, sort, ◌&&◌, ◌>>=◌,
}
use daili_usage_keeper_north.Usage.Stats.{ModelPrice}
use daili_usage_keeper_north.Pricing.{has_model}

-- Numbers as the form meets them.
pub record Numbers (C : Type 0) : Type 0 where
  -- `Number(text)`; `none` where it is not finite.
  pub read : String → Option C
  -- `value.toString()`
  pub print : C → String
  -- `value >= 0`
  pub is_non_negative : C → Bool

pub record PriceForm : Type 0 where
  pub selected_model : String
  pub prompt_price : String
  pub completion_price : String
  pub cache_price : String
  pub edit_model : Option String
  pub edit_prompt : String
  pub edit_completion : String
  pub edit_cache : String

pub record ModelOption : Type 0 where
  pub value : String
  pub label : String
  -- Whether it has the suffix, and the label of the suffix.
  pub configured : Bool

abbrev pub format_display_name : String → String
format_display_name value = if is_blank (trim value) then "-" else trim value

-- `delete prices[model]`
abbrev pub remove : {V : Type 0} → String → Dict V → Dict V
remove model prices = filter (λ e. not (str_eq e.0 model)) prices

-- `compare(left, right) <= 0`
abbrev pub model_before :
    (String → String → Bool) → (configured : String → Bool) → String → String → Bool
model_before collates configured left right = elim (configured left) [
  | true ↦ configured right && collates (format_display_name left) (format_display_name right)
  | false ↦
      if configured right
      then true
      else collates (format_display_name left) (format_display_name right)
]

module _ {C : Type 0} where
  abbrev pub model_option : Dict (ModelPrice C) → String → ModelOption
  model_option prices name = record {
    value = name;
    label = format_display_name name;
    configured = has_model name prices;
  }

  unfoldable pub build_pricing_model_options :
      (String → String → Bool) → List String → Dict (ModelPrice C) → String → List ModelOption
  unfolding sort
  build_pricing_model_options collates model_names prices placeholder =
      record { value = ""; label = placeholder; configured = false }
      ∷ map (model_option prices)
          (sort (model_before collates (λ name. has_model name prices)) model_names)

  unfoldable pub handle_delete_price : Dict (ModelPrice C) → String → Option (Dict (ModelPrice C))
  handle_delete_price prices model = some (remove model prices)

  module _ (numbers : Numbers C) where
    unfoldable pub parse_price_value : String → Option C
    parse_price_value value = elim (numbers.read value) [
      | none ↦ none
      | some parsed ↦ if numbers.is_non_negative parsed then some parsed else none
    ]

    -- The three texts as a price; without one for the cache its price is that of the prompt.
    unfoldable pub read_price : String → String → String → Option (ModelPrice C)
    unfolding parse_price_value
    read_price prompt_text completion_text cache_text = do
      prompt ← parse_price_value prompt_text
      completion ← parse_price_value completion_text
      cache ← if is_blank (trim cache_text) then some prompt else parse_price_value cache_text
      some (record { prompt = prompt; completion = completion; cache = cache })

    -- `price?.prompt?.toString() || ''`
    abbrev pub text_of_price : (ModelPrice C → C) → Option (ModelPrice C) → String
    text_of_price field none = ""
    text_of_price field (some price) = numbers.print (field price)

    module _ (prices : Dict (ModelPrice C)) where
      abbrev pub with_price : String → ModelPrice C → Dict (ModelPrice C)
      with_price model price = update model (λ old. price) prices

      unfoldable pub handle_save_price : PriceForm → PriceForm × Option (Dict (ModelPrice C))
      unfolding read_price update
      handle_save_price f =
          if is_blank f.selected_model
          then (f, none)
          else elim (read_price f.prompt_price f.completion_price f.cache_price) [
            | none ↦ (f, none)
            | some price ↦ (
              record f {
                selected_model = "";
                prompt_price = "";
                completion_price = "";
                cache_price = "";
              },
              some (with_price f.selected_model price),
            )
          ]

      unfoldable pub handle_open_edit : String → PriceForm → PriceForm
      unfolding lookup
      handle_open_edit model f =
          let price = lookup model prices in
          record f {
            edit_model = some model;
            edit_prompt = text_of_price (λ p. p.prompt) price;
            edit_completion = text_of_price (λ p. p.completion) price;
            edit_cache = text_of_price (λ p. p.cache) price;
          }

      abbrev pub save_edit_of : Option String → PriceForm → PriceForm × Option (Dict (ModelPrice C))
      save_edit_of none f = (f, none)
      save_edit_of (some model) f =
          if is_blank model
          then (f, none)
          else elim (read_price f.edit_prompt f.edit_completion f.edit_cache) [
            | none ↦ (f, none)
            | some price ↦ (record f { edit_model = none }, some (with_price model price))
          ]

      unfoldable pub handle_save_edit : PriceForm → PriceForm × Option (Dict (ModelPrice C))
      unfolding read_price update
      handle_save_edit f = save_edit_of f.edit_model f

      unfoldable pub handle_model_select : String → PriceForm → PriceForm
      unfolding lookup
      handle_model_select value f =
          let price = lookup value prices in
          record f {
            selected_model = value;
            prompt_price = text_of_price (λ p. p.prompt) price;
            completion_price = text_of_price (λ p. p.completion) price;
            cache_price = text_of_price (λ p. p.cache) price;
          }
