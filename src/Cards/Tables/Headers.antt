-- ===== src/Cards/Tables/Headers.antt =====
-- The marks of the headers after a click on one.
use daili_usage_keeper_north.Base.{
  ℕ, Bool, ◌≡◌, ◌==◌, false, if◌then◌else◌, arith, inl, inr, Bool-cases,
}
use daili_usage_keeper_north.Cards.Tables.{
  Sorting, asc, desc, flip_dir, aria_of, unsorted, handle_sort, aria_sort,
}

-- After a click on a header the table is sorted by its column, and no other is marked: in the other
-- direction if it was sorted by it before, else in the first direction of that column.
handle_sort-marks :
    {K : Type 0} (index : K → ℕ) (is_name : K → Bool) (key other : K) (s : Sorting K)
    → (index key == index other) ≡ false
    → let clicked = handle_sort index is_name key s in
      (aria_sort index clicked other ≡ unsorted)
      × (aria_sort index clicked key
          ≡ aria_of (
              if index s.sort_key == index key
              then flip_dir s.sort_dir
              else if is_name key
              then asc
              else desc))
unfolding handle_sort aria_sort
handle_sort-marks index is_name key other s apart =
    elim (Bool-cases (index s.sort_key == index key)) [
      | inl e ↦ (ground arith, ground arith)
      | inr e ↦ (ground arith, ground arith)
    ]
