-- ===== src/Pricing/Form/Keyed.antt =====
-- Objects of prices: entries that are set or removed leave one entry to a key.
use daili_usage_keeper_north.Base.{
  ◌≡◌, refl, String, true, false, Option, none, some, [], ◌∷◌, Dict, lookup, update, if◌then◌else◌,
  str_eq, eq_iff, All, arith, Bool-cases, inl, inr,
}
use daili_usage_keeper_north.Usage.Stats.{ModelPrice}
use daili_usage_keeper_north.Pricing.{has_model}
use daili_usage_keeper_north.Pricing.Sync.{IsObject}
use daili_usage_keeper_north.Pricing.Form.{remove}

module _ {C : Type 0} where
  -- No two entries have one key.
  abbrev pub IsKeyed : Dict (ModelPrice C) → Type 0
  IsKeyed [] = Unit
  IsKeyed ((k, p) ∷ m) = (has_model k m ≡ false) × IsKeyed m

  below_other :
      (k : String) (p : ModelPrice C) (m rest : Dict (ModelPrice C))
      → has_model k rest ≡ false
      → All (λ e. lookup e.0 m ≡ some e.1) rest
      → All (λ e. lookup e.0 ((k, p) ∷ m) ≡ some e.1) rest
  unfolding lookup
  below_other k p m [] h a = tt
  below_other k p m ((j, q) ∷ rest) h a =
      (ground (arith, eq_iff k j, eq_iff j k), below_other k p m rest (ground arith) a.1)

  pub IsKeyed-IsObject : (m : Dict (ModelPrice C)) → IsKeyed m → IsObject m
  unfolding lookup
  IsKeyed-IsObject [] h = tt
  IsKeyed-IsObject ((k, p) ∷ m) h =
      (ground (arith, eq_iff k k), below_other k p m m h.0 (IsKeyed-IsObject m h.1))

  has_model-update :
      (j k : String) (g : Option (ModelPrice C) → ModelPrice C) (m : Dict (ModelPrice C))
      → has_model j (update k g m) ≡ (if str_eq k j then true else has_model j m)
  unfolding update
  has_model-update j k g [] = ground (arith)
  has_model-update j k g ((i, p) ∷ m) =
      ground (arith, eq_iff k j, eq_iff i k, eq_iff i j, has_model-update j k g m)

  pub update-IsKeyed :
      (k : String) (g : Option (ModelPrice C) → ModelPrice C) (m : Dict (ModelPrice C))
      → IsKeyed m
      → IsKeyed (update k g m)
  unfolding update
  update-IsKeyed k g [] h = (refl, tt)
  update-IsKeyed k g ((i, p) ∷ m) h = elim (Bool-cases (str_eq i k)) [
    | inl e ↦ rw e h
    | inr e ↦
        rw e (
          ground (arith, has_model-update i k g m, eq_iff i k, eq_iff k i),
          update-IsKeyed k g m h.1,
        )
  ]

  has_model-remove :
      (j k : String) (m : Dict (ModelPrice C))
      → has_model j m ≡ false
      → has_model j (remove k m) ≡ false
  has_model-remove j k [] h = refl
  has_model-remove j k ((i, p) ∷ m) h = ground (arith, has_model-remove j k m)

  pub remove-IsKeyed : (k : String) (m : Dict (ModelPrice C)) → IsKeyed m → IsKeyed (remove k m)
  remove-IsKeyed k [] h = tt
  remove-IsKeyed k ((i, p) ∷ m) h = elim (Bool-cases (str_eq i k)) [
    | inl e ↦ rw e (remove-IsKeyed k m h.1)
    | inr e ↦ rw e (has_model-remove i k m h.0, remove-IsKeyed k m h.1)
  ]

  pub lookup-remove :
      (j k : String) (m : Dict (ModelPrice C))
      → lookup j (remove k m) ≡ (if str_eq k j then none else lookup j m)
  unfolding lookup
  lookup-remove j k [] = ground arith
  lookup-remove j k ((i, p) ∷ m) =
      ground (arith, eq_iff k j, eq_iff i k, eq_iff i j, lookup-remove j k m)
