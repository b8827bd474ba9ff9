-- ===== src/Cards/Tables/Order.antt =====
-- What it is for the rows of a table to be in order, said on its own: the texts of a column in the
-- direction, or the finite numbers in the direction and after them the rows without one.
use daili_usage_keeper_north.Base.{
  Bool, true, false, Option, none, some, List, [], ◌∷◌, ◌++◌, ◌≡◌, refl, ap, subst, ◌⊎◌, All,
  IsSorted, Bool-cases, inl, inr,
}
use daili_usage_keeper_north.Cards.Tables.{
  SortDir, asc, desc, in_dir, missing_last, Arithmetic, SortKey, by_model, by_requests, by_tokens,
  by_cost, by_success_rate, by_average_latency, by_total_latency, ModelStat, ModelStatWithRate,
  valid,
}

abbrev pub IsOrdered {ℓ} : {A : Type ℓ} → SortDir → (A → A → Bool) → List A → Type 0
IsOrdered asc le xs = IsSorted le xs
IsOrdered desc le xs = IsSorted (λ a b. le b a) xs

-- The number of a row in a column of numbers.
abbrev pub number_in : {N : Type 0} → SortKey → ModelStatWithRate N → Option N
number_in by_model r = none
number_in by_requests r = some r.stat.requests
number_in by_tokens r = some r.stat.tokens
number_in by_cost r = some r.stat.cost
number_in by_success_rate r = some r.success_rate
number_in by_average_latency r = r.stat.average_latency_ms
number_in by_total_latency r = r.stat.total_latency_ms

module _ {N : Type 0} (n : Arithmetic N) where
  -- The rate of a model: of its requests, or 100 if it has none.
  abbrev pub IsRate : ModelStat N → N → Type 0
  IsRate s rate =
      (n.is_positive s.requests ≡ true → rate ≡ n.percent s.success_count s.requests)
      × (n.is_positive s.requests ≡ false → rate ≡ n.hundred)

  abbrev pub LacksNumber : Option N → Type 0
  LacksNumber none = Unit
  LacksNumber (some v) = n.is_finite v ≡ false

  valid_some : (o : Option N) (v : N) → o ≡ some v → n.is_finite v ≡ true → valid n o ≡ some v
  valid_some o v e f = rw (e, valid, f) refl

  valid-cases :
      (o : Option N)
      → ((v : N) × (o ≡ some v) × (n.is_finite v ≡ true)) ⊎ (LacksNumber o × (valid n o ≡ none))
  valid-cases none = inr (tt, refl)
  valid-cases (some v) = elim (Bool-cases (n.is_finite v)) [
    | inl e ↦ inl (v, refl, e)
    | inr e ↦ inr (e, rw e refl)
  ]

  missing_some : (dir : SortDir) (v : N) → ¬ (missing_last n.leq dir none (some v) ≡ true)
  missing_some dir v k = cc

  lacks_number :
      (dir : SortDir) (o : Option N)
      → missing_last n.leq dir none (valid n o) ≡ true
      → LacksNumber o
  lacks_number dir none k = tt
  lacks_number dir (some v) k = elim (Bool-cases (n.is_finite v)) [
    | inl e ↦ absurd (
        missing_some dir v
          (subst (λ o. missing_last n.leq dir none o ≡ true) (valid_some (some v) v refl e) k))
    | inr e ↦ e
  ]

  module _ {A : Type 0} (field : A → Option N) where
    -- The rows have these numbers, which are finite.
    abbrev pub HaveNumbers : List A → List N → Type 0
    HaveNumbers [] [] = Unit
    HaveNumbers (r ∷ rows) (v ∷ vs) =
        (field r ≡ some v) × (n.is_finite v ≡ true) × HaveNumbers rows vs
    HaveNumbers _ _ = ⊥

    abbrev pub NumbersFirst : SortDir → List A → Type 0
    NumbersFirst dir rows =
        (valued missing : List A) × (numbers : List N) × (rows ≡ valued ++ missing)
        × HaveNumbers valued numbers
        × IsOrdered dir n.leq numbers
        × All (λ r. LacksNumber (field r)) missing

    abbrev pub before : SortDir → A → A → Bool
    before dir a b = missing_last n.leq dir (valid n (field a)) (valid n (field b))

    IsOrdered-nil : (dir : SortDir) → IsOrdered dir n.leq []
    IsOrdered-nil asc = tt
    IsOrdered-nil desc = tt

    IsOrdered-cons :
        (dir : SortDir) (v : N) (vs : List N)
        → All (λ w. in_dir n.leq dir v w ≡ true) vs
        → IsOrdered dir n.leq vs
        → IsOrdered dir n.leq (v ∷ vs)
    IsOrdered-cons asc v vs h o = (h, o)
    IsOrdered-cons desc v vs h o = (h, o)

    numbers_after :
        (dir : SortDir) (v : N) (rows : List A) (vs : List N) (missing : List A)
        → HaveNumbers rows vs
        → All (λ y. missing_last n.leq dir (some v) (valid n (field y)) ≡ true) (rows ++ missing)
        → All (λ w. in_dir n.leq dir v w ≡ true) vs
    numbers_after dir v [] [] missing h k = tt
    numbers_after dir v (r ∷ rows) (w ∷ vs) missing h k = (
      subst (λ o. missing_last n.leq dir (some v) o ≡ true) (valid_some (field r) w h.0 h.1) k.0,
      numbers_after dir v rows vs missing h.2 k.1,
    )
    numbers_after dir v [] (w ∷ vs) missing h k = absurd h
    numbers_after dir v (r ∷ rows) [] missing h k = absurd h

    none_after :
        (dir : SortDir) (rows : List A)
        → All (λ y. missing_last n.leq dir none (valid n (field y)) ≡ true) rows
        → All (λ y. LacksNumber (field y)) rows
    none_after dir [] k = tt
    none_after dir (r ∷ rows) k = (lacks_number dir (field r) k.0, none_after dir rows k.1)

    pub numbers_first :
        (dir : SortDir) (rows : List A) → IsSorted (before dir) rows → NumbersFirst dir rows
    numbers_first dir [] s = ([], [], [], refl, tt, IsOrdered-nil dir, tt)
    numbers_first dir (r ∷ rows) s = elim (valid-cases (field r)) [
      | inl (v, e, f) ↦
          let (valued, missing, vs, eq, have, ordered, lack) = numbers_first dir rows s.1 in
          let after : All (λ y. missing_last n.leq dir (some v) (valid n (field y)) ≡ true) rows =
            subst (λ o. All (λ y. missing_last n.leq dir o (valid n (field y)) ≡ true) rows)
              (valid_some (field r) v e f) s.0 in
          (
            r ∷ valued,
            missing,
            v ∷ vs,
            ap (λ l. r ∷ l) eq,
            (e, f, have),
            IsOrdered-cons dir v vs
                (numbers_after dir v valued vs missing have (
                  subst (All (λ y. missing_last n.leq dir (some v) (valid n (field y)) ≡ true)) eq
                    after))
                ordered,
            lack,
          )
      | inr (lack, e) ↦ (
        [],
        r ∷ rows,
        [],
        refl,
        tt,
        IsOrdered-nil dir,
        (
          lack,
          none_after dir rows (
              subst (λ o. All (λ y. missing_last n.leq dir o (valid n (field y)) ≡ true) rows) e
                s.0),
        ),
      )
    ]
