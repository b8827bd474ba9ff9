-- ===== src/Cards/Laws.antt =====
-- The rows of the credentials: their order, and the ones on top.
use daili_usage_keeper_north.Base.{
  ℕ, zero, suc, ◌≡◌, ◌≤◌, refl, ap, ◌∙◌, Bool, true, false, List, [], ◌∷◌, map, take, filter,
  length, length-take, ltb, All, IsSorted, IsOrder, sort-IsSorted, sort-perm, arith, Bool-cases,
  inl, inr,
}
use mathlib.Core.List.{Perm}
use daili_usage_keeper_north.Cards.{
  UsageIdentity, CredentialRow, credential_row, no_fewer, build_credential_rows,
  get_top_credential_rows,
}

abbrev is_used : CredentialRow → Bool
is_used r = ltb 0 r.total

rows_order : IsOrder no_fewer
rows_order = record { total = λ x y h. ground arith; trans = λ x y z h k. ground arith }

none_used :
    (r : CredentialRow) (rows : List CredentialRow)
    → is_used r ≡ false
    → All (λ y. no_fewer r y ≡ true) rows
    → filter is_used rows ≡ []
none_used r [] u h = refl
none_used r (y ∷ rows) u h =
    let unused : is_used y ≡ false = ground (arith, h.0) in rw unused (none_used r rows u h.1)

-- In sorted rows the used ones come first.
used_first :
    (rows : List CredentialRow)
    → IsSorted no_fewer rows
    → (n : ℕ) × (filter is_used rows ≡ take n rows)
used_first [] s = (0, refl)
used_first (r ∷ rows) s = elim (Bool-cases (is_used r)) [
  | inl e ↦ let (n, first) = used_first rows s.1 in (suc n, rw e (ap (λ l. r ∷ l) first))
  | inr e ↦ (0, rw e (none_used r rows e s.0))
]

take-take : (m n : ℕ) (rows : List CredentialRow) → (k : ℕ) × (take m (take n rows) ≡ take k rows)
take-take zero n rows = (0, refl)
take-take (suc m) zero rows = (0, refl)
take-take (suc m) (suc n) [] = (0, refl)
take-take (suc m) (suc n) (r ∷ rows) = let (k, e) = take-take m n rows in (suc k, ap (λ l. r ∷ l) e)

-- The table has a row for each credential, those with most requests first; the chart beside it shows
-- the first rows of the table, no more than its limit.
get_top_credential_rows_lem :
    (limit : ℕ) (credentials : List UsageIdentity)
    → let rows = build_credential_rows credentials in
      Perm rows (map credential_row credentials)
      × IsSorted no_fewer rows
      × ((n : ℕ) × (get_top_credential_rows limit rows ≡ take n rows))
      × (length (get_top_credential_rows limit rows) ≤ limit)
unfolding build_credential_rows get_top_credential_rows
get_top_credential_rows_lem limit credentials =
    let rows = build_credential_rows credentials in
    let sorted : IsSorted no_fewer rows =
      sort-IsSorted no_fewer rows_order (map credential_row credentials) in
    let (n, used) = used_first rows sorted in
    let (k, top) = take-take limit n rows in
    (
      sort-perm no_fewer (map credential_row credentials),
      sorted,
      (k, ap (take limit) used ∙ top),
      omega (arith, length-take limit (filter is_used rows)),
    )
