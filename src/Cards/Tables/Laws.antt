-- ===== src/Cards/Tables/Laws.antt =====
-- The sorted tables: which rows they hold and in which order.
use daili_usage_keeper_north.Base.{
  String, Bool, true, false, Option, none, some, List, map, ◌≡◌, refl, All, IsSorted, IsOrder, sort,
  sort-IsSorted, sort-perm, Bool-cases, inl, inr, [], ◌∷◌,
}
use mathlib.Core.List.{Perm}
use daili_usage_keeper_north.Cards.Tables.{
  SortDir, asc, desc, Sorting, in_dir, missing_last, Arithmetic, SortKey, by_model, by_requests,
  by_tokens, by_cost, by_success_rate, by_average_latency, by_total_latency, ModelStat,
  ModelStatWithRate, with_rate, valid, column_at, compare_at, sorted_models,
}
use daili_usage_keeper_north.Cards.Tables.Order.{
  IsOrdered, number_in, IsRate, NumbersFirst, before, numbers_first,
}

-- `leq` orders the finite numbers; of NaN and the infinities nothing is asked.
pub record IsFiniteOrder {N : Type 0} (n : Arithmetic N) : Type 0 where
  pub total :
      (x y : N) → n.is_finite x ≡ true → n.is_finite y ≡ true → n.leq x y ≡ false → n.leq y x ≡ true
  pub trans :
      (x y z : N)
      → n.is_finite x ≡ true
      → n.is_finite y ≡ true
      → n.is_finite z ≡ true
      → n.leq x y ≡ true
      → n.leq y z ≡ true
      → n.leq x z ≡ true

pub in_dir-IsOrder {ℓ} :
    {A : Type ℓ} (le : A → A → Bool) → IsOrder le → (dir : SortDir) → IsOrder (in_dir le dir)
in_dir-IsOrder le o asc = o
in_dir-IsOrder le o desc = record {
  total = λ x y h. o.total y x h;
  trans = λ x y z h k. o.trans z y x k h;
}

-- An order of values orders what they are the values of.
pub order_by {ℓ κ} :
    {A : Type ℓ} {B : Type κ} (f : A → B) (le : B → B → Bool)
    → IsOrder le
    → IsOrder (λ x y. le (f x) (f y))
order_by f le o = record {
  total = λ x y h. o.total (f x) (f y) h;
  trans = λ x y z h k. o.trans (f x) (f y) (f z) h k;
}

module _ {ℓ κ} {A : Type ℓ} {B : Type κ} (f : A → B) (le : B → B → Bool) where
  All-map :
      (x : A) (rows : List A)
      → All (λ y. le (f x) (f y) ≡ true) rows
      → All (λ w. le (f x) w ≡ true) (map f rows)
  All-map x [] h = tt
  All-map x (y ∷ rows) h = (h.0, All-map x rows h.1)

  IsSorted-map : (rows : List A) → IsSorted (λ a b. le (f a) (f b)) rows → IsSorted le (map f rows)
  IsSorted-map [] s = tt
  IsSorted-map (r ∷ rows) s = (All-map r rows s.0, IsSorted-map rows s.1)

-- The texts of a table that is in order by them.
texts-IsOrdered {ℓ} :
    {A : Type ℓ} (f : A → String) (le : String → String → Bool) (dir : SortDir) (rows : List A)
    → IsSorted (λ a b. in_dir le dir (f a) (f b)) rows
    → IsOrdered dir le (map f rows)
texts-IsOrdered f le asc rows s = IsSorted-map f le rows s
texts-IsOrdered f le desc rows s = IsSorted-map f (λ a b. le b a) rows s

module _ {N : Type 0} (n : Arithmetic N) (order : IsFiniteOrder n) (dir : SortDir) where
  abbrev IsFinite : Option N → Type 0
  IsFinite none = Unit
  IsFinite (some v) = n.is_finite v ≡ true

  valid-IsFinite : (o : Option N) → IsFinite (valid n o)
  valid-IsFinite none = tt
  valid-IsFinite (some v) = elim (Bool-cases (n.is_finite v)) [ inl e ↦ rw e e | inr e ↦ rw e tt ]

  in_dir_total :
      (d : SortDir) (x y : N)
      → n.is_finite x ≡ true
      → n.is_finite y ≡ true
      → in_dir n.leq d x y ≡ false
      → in_dir n.leq d y x ≡ true
  in_dir_total asc x y f g h = order.total x y f g h
  in_dir_total desc x y f g h = order.total y x g f h

  in_dir_trans :
      (d : SortDir) (x y z : N)
      → n.is_finite x ≡ true
      → n.is_finite y ≡ true
      → n.is_finite z ≡ true
      → in_dir n.leq d x y ≡ true
      → in_dir n.leq d y z ≡ true
      → in_dir n.leq d x z ≡ true
  in_dir_trans asc x y z f g i h k = order.trans x y z f g i h k
  in_dir_trans desc x y z f g i h k = order.trans z y x i g f k h

  missing_last_total :
      (x y : Option N)
      → IsFinite x
      → IsFinite y
      → missing_last n.leq dir x y ≡ false
      → missing_last n.leq dir y x ≡ true
  missing_last_total none none f g h = refl
  missing_last_total none (some y) f g h = refl
  missing_last_total (some x) none f g h = cc
  missing_last_total (some x) (some y) f g h = in_dir_total dir x y f g h

  missing_last_trans :
      (x y z : Option N)
      → IsFinite x
      → IsFinite y
      → IsFinite z
      → missing_last n.leq dir x y ≡ true
      → missing_last n.leq dir y z ≡ true
      → missing_last n.leq dir x z ≡ true
  missing_last_trans none none none f g i h k = refl
  missing_last_trans none none (some z) f g i h k = k
  missing_last_trans none (some y) none f g i h k = refl
  missing_last_trans none (some y) (some z) f g i h k = h
  missing_last_trans (some x) y none f g i h k = refl
  missing_last_trans (some x) none (some z) f g i h k = cc
  missing_last_trans (some x) (some y) (some z) f g i h k = in_dir_trans dir x y z f g i h k

  before-IsOrder : {A : Type 0} (field : A → Option N) → IsOrder (before n field dir)
  before-IsOrder field = record {
    total = λ x y h.
        missing_last_total (valid n (field x)) (valid n (field y)) (valid-IsFinite (field x))
          (valid-IsFinite (field y)) h;
    trans = λ x y z h k.
        missing_last_trans (valid n (field x)) (valid n (field y)) (valid n (field z))
          (valid-IsFinite (field x)) (valid-IsFinite (field y)) (valid-IsFinite (field z)) h k;
  }

module _ {N : Type 0} (collates : String → String → Bool) (n : Arithmetic N) where
  -- The rows are in order by the column in the direction.
  abbrev pub IsInOrder : SortKey → SortDir → List (ModelStatWithRate N) → Type 0
  IsInOrder by_model dir rows = IsOrdered dir collates (map (λ r. r.stat.model) rows)
  IsInOrder key dir rows = NumbersFirst n (number_in key) dir rows

module _ {N : Type 0} (collates : String → String → Bool) (n : Arithmetic N)
    (names : IsOrder collates) (order : IsFiniteOrder n) where
  abbrev sorted_by : SortKey → SortDir → List (ModelStatWithRate N) → List (ModelStatWithRate N)
  sorted_by key dir rows = sort (compare_at collates n (column_at n key) dir) rows

  sorted_by_number :
      (field : ModelStatWithRate N → Option N) (dir : SortDir) (rows : List (ModelStatWithRate N))
      → NumbersFirst n field dir (sort (before n field dir) rows)
  sorted_by_number field dir rows =
      numbers_first n field dir (sort (before n field dir) rows)
        (sort-IsSorted (before n field dir) (before-IsOrder n order dir field) rows)

  sorted_by_name :
      (dir : SortDir) (rows : List (ModelStatWithRate N))
      → IsOrdered dir collates (
          map
            (λ r. r.stat.model)
            (sort (λ a b. in_dir collates dir a.stat.model b.stat.model) rows))
  sorted_by_name dir rows =
      texts-IsOrdered (λ r. r.stat.model) collates dir _
        (sort-IsSorted (λ a b. in_dir collates dir a.stat.model b.stat.model)
          (order_by (λ r. r.stat.model) (in_dir collates dir) (in_dir-IsOrder collates names dir))
          rows)

  sorted_by-IsInOrder :
      (key : SortKey) (dir : SortDir) (rows : List (ModelStatWithRate N))
      → IsInOrder collates n key dir (sorted_by key dir rows)
  unfolding column_at compare_at
  sorted_by-IsInOrder by_model dir rows = sorted_by_name dir rows
  sorted_by-IsInOrder by_requests dir rows = sorted_by_number (number_in by_requests) dir rows
  sorted_by-IsInOrder by_tokens dir rows = sorted_by_number (number_in by_tokens) dir rows
  sorted_by-IsInOrder by_cost dir rows = sorted_by_number (number_in by_cost) dir rows
  sorted_by-IsInOrder by_success_rate dir rows =
      sorted_by_number (number_in by_success_rate) dir rows
  sorted_by-IsInOrder by_average_latency dir rows =
      sorted_by_number (number_in by_average_latency) dir rows
  sorted_by-IsInOrder by_total_latency dir rows =
      sorted_by_number (number_in by_total_latency) dir rows

  -- Given that the collation and, on the finite numbers, the order are orders: whatever column and
  -- direction the table of the models is sorted by, it holds a row for each of them with its own numbers
  -- and the share of its requests that succeeded (100 without any). By name, the names are in order in the
  -- direction; by any other column, the rows with a finite number in it come first, these numbers in order
  -- in the direction, and after them in either direction the rows whose number is missing or not finite.
  pub sorted_models_lem :
      (s : Sorting SortKey) (stats : List (ModelStat N))
      → let rows = sorted_models collates n s stats in
        Perm rows (map (with_rate n) stats)
        × ((m : ModelStat N) → ((with_rate n m).stat ≡ m) × IsRate n m (with_rate n m).success_rate)
        × IsInOrder collates n s.sort_key s.sort_dir rows
  unfolding sorted_models
  sorted_models_lem s stats = (
    sort-perm _ (map (with_rate n) stats),
    (λ m. (refl, ((λ e. rw e refl), (λ e. rw e refl)))),
    sorted_by-IsInOrder s.sort_key s.sort_dir (map (with_rate n) stats),
  )
