-- ===== src/Base/Sort.antt =====
-- `Array.prototype.sort`: the stable sort by a comparison.
use mathlib.Core.Path.{◌≡◌, refl, ap, ◌∙◌}
use mathlib.Core.Bool.{Bool, true, false}
use mathlib.Core.Logic.{inl, inr}
use mathlib.Core.List.{List, [], ◌∷◌, foldl, Perm}
use mathlib.Core.List.Perm
use native.Mathlib.Omega.{arith}
use daili_usage_keeper_north.Base.Tests.{if◌then◌else◌, Bool-cases}
use daili_usage_keeper_north.Base.Lists.{All}

module _ {ℓ} {A : Type ℓ} (le : A → A → Bool) where
  -- `le x y` is `compare(x, y) <= 0`: an item stays before those that it does not come after.
  insert_sorted : A → List A → List A
  insert_sorted x [] = x ∷ []
  insert_sorted x (y ∷ ys) = if le x y then x ∷ y ∷ ys else y ∷ insert_sorted x ys

  unfoldable pub sort : List A → List A
  unfolding insert_sorted
  sort [] = []
  sort (x ∷ xs) = insert_sorted x (sort xs)

  insert_sorted-perm : (x : A) (ys : List A) → Perm (insert_sorted x ys) (x ∷ ys)
  unfolding insert_sorted
  insert_sorted-perm x [] = Perm.refl _
  insert_sorted-perm x (y ∷ ys) = elim (Bool-cases (le x y)) [
    | inl e ↦ rw e (Perm.refl _)
    | inr e ↦ rw e (Perm.trans (Perm.cons y (insert_sorted-perm x ys)) (Perm.swap x y ys))
  ]

  pub sort-perm : (xs : List A) → Perm (sort xs) xs
  unfolding sort
  sort-perm [] = Perm.refl _
  sort-perm (x ∷ xs) = Perm.trans (insert_sorted-perm x (sort xs)) (Perm.cons x (sort-perm xs))

  -- Each item is `le` all that follow it.
  abbrev pub IsSorted : List A → Type 0
  IsSorted [] = Unit
  IsSorted (x ∷ xs) = All (λ y. le x y ≡ true) xs × IsSorted xs

  -- What the comparison has to be for `sort` to put a list in order.
  pub record IsOrder : Type ℓ where
    pub total : (x y : A) → le x y ≡ false → le y x ≡ true
    pub trans : (x y z : A) → le x y ≡ true → le y z ≡ true → le x z ≡ true

  module _ (o : IsOrder) where
    All-le-insert_sorted :
        (z x : A) (ys : List A)
        → le z x ≡ true
        → All (λ y. le z y ≡ true) ys
        → All (λ y. le z y ≡ true) (insert_sorted x ys)
    unfolding insert_sorted
    All-le-insert_sorted z x [] h hs = (h, tt)
    All-le-insert_sorted z x (y ∷ ys) h hs = ground (arith, All-le-insert_sorted z x ys h hs.1)

    All-le_trans :
        (z x : A) (ys : List A)
        → le z x ≡ true
        → All (λ y. le x y ≡ true) ys
        → All (λ y. le z y ≡ true) ys
    All-le_trans z x [] h hs = tt
    All-le_trans z x (y ∷ ys) h hs = (o.trans z x y h hs.0, All-le_trans z x ys h hs.1)

    insert_sorted-IsSorted : (x : A) (ys : List A) → IsSorted ys → IsSorted (insert_sorted x ys)
    unfolding insert_sorted
    insert_sorted-IsSorted x [] h = (tt, tt)
    insert_sorted-IsSorted x (y ∷ ys) h = elim (Bool-cases (le x y)) [
      | inl e ↦ rw e ((e, All-le_trans x y ys e h.0), h)
      | inr e ↦
          rw e (All-le-insert_sorted y x ys (o.total x y e) h.0, insert_sorted-IsSorted x ys h.1)
    ]

    pub sort-IsSorted : (xs : List A) → IsSorted (sort xs)
    unfolding sort
    sort-IsSorted [] = tt
    sort-IsSorted (x ∷ xs) = insert_sorted-IsSorted x (sort xs) (sort-IsSorted xs)

  -- A fold whose steps may be swapped does not see the order.
  module _ {κ} {B : Type κ} (f : B → A → B)
      (swap : (b : B) (x y : A) → f (f b x) y ≡ f (f b y) x) where
    foldl-insert_sorted :
        (b : B) (x : A) (ys : List A) → foldl f b (insert_sorted x ys) ≡ foldl f (f b x) ys
    unfolding insert_sorted
    foldl-insert_sorted b x [] = refl
    foldl-insert_sorted b x (y ∷ ys) = elim (Bool-cases (le x y)) [
      | inl e ↦ rw e refl
      | inr e ↦ rw e (foldl-insert_sorted (f b y) x ys ∙ ap (λ c. foldl f c ys) (swap b y x))
    ]

    pub foldl-sort : (b : B) (xs : List A) → foldl f b (sort xs) ≡ foldl f b xs
    unfolding sort
    foldl-sort b [] = refl
    foldl-sort b (x ∷ xs) = foldl-insert_sorted b x (sort xs) ∙ foldl-sort (f b x) xs
