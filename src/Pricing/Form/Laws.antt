-- ===== src/Pricing/Form/Laws.antt =====
-- What the form of the prices comes to on the server, through the requests of `setModelPrices`.
use daili_usage_keeper_north.Base.{
  ◌≡◌, refl, sym, ap, ◌∙◌, String, Bool, true, false, Option, none, some, Dict, lookup, update,
  lookup-update, if◌then◌else◌, str_eq, eq_iff, arith, Bool-cases, Option-cases, inl, inr, is_blank,
  trim,
}
use daili_usage_keeper_north.Usage.Stats.{ModelPrice}
use daili_usage_keeper_north.Pricing.{price_requests}
use daili_usage_keeper_north.Pricing.Sync.{Server, serve_all, price_requests-serve_all}
use daili_usage_keeper_north.Pricing.Form.{
  Numbers, PriceForm, remove, read_price, parse_price_value, handle_save_price, handle_delete_price,
  handle_open_edit, handle_save_edit,
}
use daili_usage_keeper_north.Pricing.Form.Keyed.{
  IsKeyed, IsKeyed-IsObject, update-IsKeyed, remove-IsKeyed, lookup-remove,
}

module _ {C : Type 0} where
  -- What a server holds after `onPricesChange` was called with these prices, or was not called.
  abbrev pub served :
      (C → C → Bool) → Dict (ModelPrice C) → Server C → Option (Dict (ModelPrice C)) → Server C
  served same previous server none = server
  served same previous server (some prices) = serve_all server (price_requests same previous prices)

  -- The price of a model set to `some p`, or deleted, or left as it is.
  abbrev pub set_price : Server C → String → Option (ModelPrice C) → Server C
  set_price server model price k = if str_eq model k then price else server k

  abbrev pub set_if : Server C → String → Option (ModelPrice C) → Server C
  set_if server model none = server
  set_if server model (some price) = set_price server model (some price)

-- A text is a number from 0 on.
abbrev pub IsPrice : {C : Type 0} → Numbers C → String → C → Type 0
IsPrice numbers text c = (numbers.read text ≡ some c) × (numbers.is_non_negative c ≡ true)

-- The form names a model and asks for this price of it.
abbrev pub AsksFor : {C : Type 0} → Numbers C → PriceForm → ModelPrice C → Type 0
AsksFor numbers f p =
    (is_blank f.selected_model ≡ false)
    × IsPrice numbers f.prompt_price p.prompt
    × IsPrice numbers f.completion_price p.completion
    × (is_blank (trim f.cache_price) ≡ true → p.cache ≡ p.prompt)
    × (is_blank (trim f.cache_price) ≡ false → IsPrice numbers f.cache_price p.cache)

module _ {C : Type 0} (numbers : Numbers C) (f : PriceForm) (p : ModelPrice C) where
  AsksFor-read_price :
      AsksFor numbers f p
      → read_price numbers f.prompt_price f.completion_price f.cache_price ≡ some p
  unfolding read_price
  AsksFor-read_price a = ground arith

  read_price-AsksFor :
      is_blank f.selected_model ≡ false
      → read_price numbers f.prompt_price f.completion_price f.cache_price ≡ some p
      → AsksFor numbers f p
  unfolding read_price
  read_price-AsksFor n e = ground arith

-- A server that holds the prices that the form was given, which are an object.
module _ {C : Type 0} (same : C → C → Bool) (exact : (a b : C) → same a b ≡ true → a ≡ b)
    (prices : Dict (ModelPrice C)) (keyed : IsKeyed prices) (server : Server C)
    (held : (k : String) → server k ≡ lookup k prices) where
  update-served :
      (model : String) (p : ModelPrice C) (k : String)
      → served same prices server (some (update model (λ old. p) prices)) k
        ≡ set_price server model (some p) k
  update-served model p k =
      price_requests-serve_all same exact prices (update model (λ old. p) prices) server
        (IsKeyed-IsObject _ (update-IsKeyed model (λ old. p) prices keyed)) held k
      ∙ lookup-update k model (λ old. p) prices
      ∙ ap (λ o. if str_eq model k then some p else o) (sym (held k))

  remove-served :
      (model k : String)
      → served same prices server (some (remove model prices)) k ≡ set_price server model none k
  remove-served model k =
      price_requests-serve_all same exact prices (remove model prices) server
        (IsKeyed-IsObject _ (remove-IsKeyed model prices keyed)) held k
      ∙ lookup-remove k model prices
      ∙ ap (λ o. if str_eq model k then none else o) (sym (held k))

  module _ (numbers : Numbers C) where
    save_read :
        (f saved : PriceForm) (price : Option (ModelPrice C)) (k : String)
        → served same prices server
            (elim price as (λ o. PriceForm × Option (Dict (ModelPrice C))) [
              | none ↦ (f, none)
              | some p ↦ (saved, some (update f.selected_model (λ old. p) prices))
            ]).1
            k
          ≡ set_if server f.selected_model price k
    save_read f saved none k = refl
    save_read f saved (some p) k = update-served f.selected_model p k

    saved_or_not :
        (f : PriceForm) (k : String)
        → served same prices server (handle_save_price numbers prices f).1 k
          ≡ set_if server f.selected_model
              (if is_blank f.selected_model
                then none
                else read_price numbers f.prompt_price f.completion_price f.cache_price)
              k
    unfolding handle_save_price
    saved_or_not f k = elim (Bool-cases (is_blank f.selected_model)) [
      | inl e ↦ rw e refl
      | inr e ↦
          rw e
            (save_read f _ (read_price numbers f.prompt_price f.completion_price f.cache_price) k)
    ]

    not_saved :
        (f : PriceForm) (k : String)
        → ((p : ModelPrice C) → ¬ AsksFor numbers f p)
        → set_if server f.selected_model
            (if is_blank f.selected_model
              then none
              else read_price numbers f.prompt_price f.completion_price f.cache_price)
            k
          ≡ server k
    not_saved f k n = elim (Bool-cases (is_blank f.selected_model)) [
      | inl e ↦ rw e refl
      | inr e ↦
          elim (Option-cases (read_price numbers f.prompt_price f.completion_price f.cache_price)) [
            | inl r ↦ rw (e, r) refl
            | inr (p, r) ↦ absurd (n p (read_price-AsksFor numbers f p e r))
          ]
    ]

    -- Through the requests of `setModelPrices`, on a server that holds the old prices: saving a form
    -- that asks for a price of a model sets that price of that model alone, saving any other form
    -- changes nothing, and deleting a model removes its price alone. A form asks for a price if its
    -- texts are numbers from 0 on; that of the cache may be left blank, and is that of the prompt then.
    pub handle_save_price-served :
        (f : PriceForm) (k : String)
        → ((p : ModelPrice C)
            → AsksFor numbers f p
            → served same prices server (handle_save_price numbers prices f).1 k
              ≡ set_price server f.selected_model (some p) k)
          × (((p : ModelPrice C) → ¬ AsksFor numbers f p)
              → served same prices server (handle_save_price numbers prices f).1 k ≡ server k)
          × (served same prices server (handle_delete_price prices f.selected_model) k
              ≡ set_price server f.selected_model none k)
    unfolding handle_delete_price
    handle_save_price-served f k = (
      λ p a. rw (saved_or_not f k, a.0, AsksFor-read_price numbers f p a) refl,
      λ n. saved_or_not f k ∙ not_saved f k n,
      remove-served f.selected_model k,
    )

    module _ (prints : (c : C) → numbers.read (numbers.print c) ≡ some c)
        (visible : (c : C) → is_blank (trim (numbers.print c)) ≡ false) where
      parse_price_value-print :
          (c : C)
          → numbers.is_non_negative c ≡ true
          → parse_price_value numbers (numbers.print c) ≡ some c
      unfolding parse_price_value
      parse_price_value-print c h = ground (arith, prints c)

      read_price-print :
          (p : ModelPrice C)
          → numbers.is_non_negative p.prompt ≡ true
          → numbers.is_non_negative p.completion ≡ true
          → numbers.is_non_negative p.cache ≡ true
          → read_price numbers
              (numbers.print p.prompt)
              (numbers.print p.completion)
              (numbers.print p.cache)
            ≡ some p
      unfolding read_price
      read_price-print p x y z = ground (
        arith,
        parse_price_value-print p.prompt,
        parse_price_value-print p.completion,
        parse_price_value-print p.cache,
        visible p.cache,
      )

      -- Opening the dialog on a model that has a price, with numbers from 0 on, and saving it at once
      -- closes the dialog and leaves the server as it was, provided a number that is printed is read
      -- back and is not blank.
      pub handle_save_edit-handle_open_edit :
          (f : PriceForm) (model : String) (p : ModelPrice C) (k : String)
          → is_blank model ≡ false
          → lookup model prices ≡ some p
          → numbers.is_non_negative p.prompt ≡ true
          → numbers.is_non_negative p.completion ≡ true
          → numbers.is_non_negative p.cache ≡ true
          → let saved = handle_save_edit numbers prices (handle_open_edit numbers prices model f) in
            (saved.0.edit_model ≡ none) × (served same prices server saved.1 k ≡ server k)
      unfolding handle_save_edit handle_open_edit
      handle_save_edit-handle_open_edit f model p k b l x y z =
          rw (b, l, read_price-print p x y z)
            (
              refl,
              update-served model p k ∙ elim (Bool-cases (str_eq model k)) [
                | inl e ↦
                    rw e (sym l ∙ ap (λ j. lookup j prices) ((eq_iff model k).0 e) ∙ sym (held k))
                | inr e ↦ rw e refl
              ],
            )
