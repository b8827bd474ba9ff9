-- ===== src/Base/Dicts.antt =====
-- A JavaScript object or `Map` that is used as a dictionary: its entries in order of insertion.
use Prim.Native.Nat.{ℕ, ◌+◌}
use Prim.Native.String.{String}
use mathlib.Core.Path.{◌≡◌, refl, ap, ◌∙◌}
use mathlib.Core.Logic.{inl, inr}
use mathlib.Core.Option.{Option, none, some}
use mathlib.Core.List.{List, [], ◌∷◌, ◌++◌, map, append-nil, append_assoc}
use native.Mathlib.Omega.{arith}
use daili_usage_keeper_north.Base.Tests.{if◌then◌else◌, Bool-cases}
use daili_usage_keeper_north.Base.Int.{ℤ, pos, ◌+ℤ◌, int_laws, pos_part, neg_part}
use daili_usage_keeper_north.Base.Text.{str_eq, eq_iff}
use daili_usage_keeper_north.Base.Lists.{filter}

abbrev pub Dict {ℓ} : Type ℓ → Type ℓ
Dict V = List (String × V)

module _ {ℓ} {V : Type ℓ} where
  -- `m[k]`
  unfoldable pub lookup : String → Dict V → Option V
  lookup k [] = none
  lookup k ((j, v) ∷ m) = if str_eq j k then some v else lookup k m

  -- `m[k] = g(m[k])`: the value under `k` is written anew, a key that was not there goes to the end.
  unfoldable pub update : String → (Option V → V) → Dict V → Dict V
  update k g [] = (k, g none) ∷ []
  update k g ((j, v) ∷ m) = if str_eq j k then (j, g (some v)) ∷ m else (j, v) ∷ update k g m

  abbrev pub keys : Dict V → List String
  keys m = map (λ e. e.0) m

  abbrev pub values : Dict V → List V
  values m = map (λ e. e.1) m

  pub lookup-update :
      (j k : String) (g : Option V → V) (m : Dict V)
      → lookup j (update k g m) ≡ (if str_eq k j then some (g (lookup k m)) else lookup j m)
  unfolding lookup update
  lookup-update j k g [] = refl
  lookup-update j k g ((i, w) ∷ m) =
      ground (arith, eq_iff k j, eq_iff i k, eq_iff i j, lookup-update j k g m)

  -- The sum of a count over the values.
  abbrev pub total : (V → ℕ) → Dict V → ℕ
  total f [] = 0
  total f ((k, v) ∷ m) = f v + total f m

  abbrev pub count_of : (V → ℕ) → Option V → ℕ
  count_of f none = 0
  count_of f (some v) = f v

  pub total-update :
      (f : V → ℕ) (k : String) (g : Option V → V) (m : Dict V)
      → total f (update k g m) + count_of f (lookup k m) ≡ total f m + f (g (lookup k m))
  unfolding lookup update
  total-update f k g [] = omega arith
  total-update f k g ((i, w) ∷ m) = ground (arith, total-update f k g m)

  abbrev pub total_ℤ : (V → ℤ) → Dict V → ℤ
  total_ℤ f [] = pos 0
  total_ℤ f ((k, v) ∷ m) = f v +ℤ total_ℤ f m

  abbrev pub amount_of : (V → ℤ) → Option V → ℤ
  amount_of f none = pos 0
  amount_of f (some v) = f v

  pub total_ℤ-update :
      (f : V → ℤ) (k : String) (g : Option V → V) (m : Dict V)
      → total_ℤ f (update k g m) +ℤ amount_of f (lookup k m) ≡ total_ℤ f m +ℤ f (g (lookup k m))
  unfolding lookup update
  total_ℤ-update f k g [] = omega int_laws
  total_ℤ-update f k g ((i, w) ∷ m) = elim (Bool-cases (str_eq i k)) [
    | inl e ↦ rw e (omega int_laws)
    | inr e ↦
        let ih = total_ℤ-update f k g m in rw e (omega (int_laws, ap pos_part ih, ap neg_part ih))
  ]

module _ {ℓ κ} {A : Type ℓ} {V : Type κ} where
  -- The value `f` of some items; no items leave no entry.
  abbrev pub of_items : (List A → V) → List A → Option V
  of_items f [] = none
  of_items f (x ∷ xs) = some (f (x ∷ xs))

-- `items.forEach((x) => { m[key(x)] = g(x, m[key(x)]) })`, and what it makes of one entry.
module _ {ℓ κ} {A : Type ℓ} {V : Type κ} (g : A → Option V → V) where
  abbrev pub absorb : Option V → List A → Option V
  absorb o [] = o
  absorb o (x ∷ xs) = absorb (some (g x o)) xs

  module _ (key : A → String) where
    unfoldable pub group : Dict V → List A → Dict V
    unfolding update
    group m [] = m
    group m (x ∷ xs) = group (update (key x) (g x) m) xs

    -- The entry of a key is built from the items with that key alone, in their order.
    pub lookup-group :
        (j : String) (m : Dict V) (xs : List A)
        → lookup j (group m xs) ≡ absorb (lookup j m) (filter (λ x. str_eq (key x) j) xs)
    unfolding group
    lookup-group j m [] = refl
    lookup-group j m (x ∷ xs) = elim (Bool-cases (str_eq (key x) j)) [
      | inl e ↦
          rw (lookup-group j (update (key x) (g x) m) xs, lookup-update j (key x) (g x) m, e)
            (ap (λ o. absorb (some (g x (lookup o m))) (filter (λ y. str_eq (key y) j) xs))
              ((eq_iff (key x) j).0 e))
      | inr e ↦
          rw (lookup-group j (update (key x) (g x) m) xs, lookup-update j (key x) (g x) m, e) refl
    ]

    pub group-append : (m : Dict V) (xs ys : List A) → group m (xs ++ ys) ≡ group (group m xs) ys
    unfolding group
    group-append m [] ys = refl
    group-append m (x ∷ xs) ys = group-append (update (key x) (g x) m) xs ys

  -- If `g` keeps an entry the value `f` of the items so far, it is the value of them all in the end.
  module _ (f : List A → V)
      (step : (y : A) (xs : List A) (x : A)
        → g x (some (f (y ∷ xs))) ≡ f ((y ∷ xs) ++ x ∷ [])) where
    absorb-some :
        (x : A) (xs ys : List A) → absorb (some (f (x ∷ xs))) ys ≡ some (f ((x ∷ xs) ++ ys))
    absorb-some x xs [] = rw append-nil
    absorb-some x xs (y ∷ ys) =
        rw (step x xs y) (
          absorb-some x (xs ++ y ∷ []) ys
          ∙ ap (λ l. some (f (x ∷ l))) (append_assoc xs (y ∷ []) ys))

    pub absorb-none :
        ((x : A) → g x none ≡ f (x ∷ [])) → (xs : List A) → absorb none xs ≡ of_items f xs
    absorb-none first [] = refl
    absorb-none first (x ∷ xs) = rw (first x) (absorb-some x [] xs)
