-- ===== src/Page/Controls/Lines.antt =====
-- The lines of the charts are stored and loaded again.
use Prim.Native.Char.{code}
use daili_usage_keeper_north.Base.{
  ℕ, zero, suc, ◌≤◌, ◌≡◌, refl, ap, String, Bool, true, false, not, ◌&&◌, Option, none, some, List,
  [], ◌∷◌, map, take, length, length-take, All, is_blank, trim, trim_start, trim_end, is_space,
  arith, Bool-cases, inl, inr,
}
use daili_usage_keeper_north.Page.Controls.{
  or_default, Items, stored_lines, normalize_chart_lines, max_chart_lines, load_chart_lines,
  handle_chart_lines_change,
}

abbrev starts_well : String → Bool
starts_well String.[] = true
starts_well (String.◌∷◌ c s) = not (is_space (code c))

trim_start-starts_well : (s : String) → starts_well (trim_start s) ≡ true
unfolding trim_start
trim_start-starts_well String.[] = refl
trim_start-starts_well (String.◌∷◌ c s) = ground (arith, trim_start-starts_well s)

trim_start-kept : (s : String) → starts_well s ≡ true → trim_start s ≡ s
unfolding trim_start
trim_start-kept String.[] h = refl
trim_start-kept (String.◌∷◌ c s) h = ground arith

trim_end-starts_well : (s : String) → starts_well s ≡ true → starts_well (trim_end s) ≡ true
unfolding trim_end
trim_end-starts_well String.[] h = refl
trim_end-starts_well (String.◌∷◌ c s) h = ground arith

trim_end-cons :
    (c : _) (s : String)
    → trim_end s ≡ s
    → (is_blank s && is_space (code c)) ≡ false
    → trim_end (String.◌∷◌ c s) ≡ String.◌∷◌ c s
unfolding trim_end
trim_end-cons c s h k = rw (h, k) refl

trim_end_twice : (s : String) → trim_end (trim_end s) ≡ trim_end s
unfolding trim_end
trim_end_twice String.[] = refl
trim_end_twice (String.◌∷◌ c s) = elim (Bool-cases (is_blank (trim_end s) && is_space (code c))) [
  | inl e ↦ rw e refl
  | inr e ↦ rw e (trim_end-cons c (trim_end s) (trim_end_twice s) e)
]

trim_twice : (s : String) → trim (trim s) ≡ trim s
unfolding trim
trim_twice s =
    rw
      (trim_start-kept (trim_end (trim_start s))
        (trim_end-starts_well (trim_start s) (trim_start-starts_well s)))
      (trim_end_twice (trim_start s))

-- A line that is kept: it is trimmed, and it is not empty.
pub record IsLine (l : String) : Type 0 where
  pub trimmed : trim l ≡ l
  pub full : is_blank l ≡ false

stored_lines-IsLine : (items : List (Option String)) → All IsLine (stored_lines items)
unfolding stored_lines
stored_lines-IsLine [] = tt
stored_lines-IsLine (none ∷ items) = stored_lines-IsLine items
stored_lines-IsLine (some s ∷ items) = elim (Bool-cases (is_blank (trim s))) [
  | inl e ↦ rw e (stored_lines-IsLine items)
  | inr e ↦ rw e (record { trimmed = trim_twice s; full = e }, stored_lines-IsLine items)
]

stored_lines-map : (ls : List String) → All IsLine ls → stored_lines (map some ls) ≡ ls
unfolding stored_lines
stored_lines-map [] h = refl
stored_lines-map (l ∷ ls) h = rw (h.0.trimmed, h.0.full) (ap (λ r. l ∷ r) (stored_lines-map ls h.1))

All-take : (n : ℕ) (ls : List String) → All IsLine ls → All IsLine (take n ls)
All-take zero ls h = tt
All-take (suc n) [] h = tt
All-take (suc n) (l ∷ ls) h = (h.0, All-take n ls h.1)

-- `slice` on a list that is short enough.
take-short : (n : ℕ) (ls : List String) → length ls ≤ n → take n ls ≡ ls
take-short zero [] h = refl
take-short zero (l ∷ ls) h = ground arith
take-short (suc n) [] h = refl
take-short (suc n) (l ∷ ls) h = ap (λ r. l ∷ r) (take-short n ls (omega arith))

-- Lines that can be stored and loaded again.
pub record IsStorable (ls : List String) : Type 0 where
  pub some_line : 1 ≤ length ls
  pub few : length ls ≤ max_chart_lines
  pub proper : All IsLine ls

pub all-IsLine : IsLine "all"
unfolding trim
all-IsLine = record { trimmed = refl; full = refl }

pub or_default-IsStorable :
    (ls : List String) → length ls ≤ max_chart_lines → All IsLine ls → IsStorable (or_default ls)
or_default-IsStorable [] h k = record {
  some_line = omega arith;
  few = omega arith;
  proper = (all-IsLine, tt);
}
or_default-IsStorable (l ∷ ls) h k = record { some_line = omega arith; few = h; proper = k }

normalize-IsStorable : (items : Items) → IsStorable (normalize_chart_lines max_chart_lines items)
unfolding normalize_chart_lines
normalize-IsStorable none = or_default-IsStorable [] (omega arith) tt
normalize-IsStorable (some items) =
    or_default-IsStorable (take max_chart_lines (stored_lines items))
      (omega (arith, length-take max_chart_lines (stored_lines items)))
      (All-take max_chart_lines (stored_lines items) (stored_lines-IsLine items))

pub or_default-kept : (ls : List String) → 1 ≤ length ls → or_default ls ≡ ls
or_default-kept [] h = ground arith
or_default-kept (l ∷ ls) h = refl

pub normalize-kept :
    (ls : List String)
    → IsStorable ls
    → normalize_chart_lines max_chart_lines (some (map some ls)) ≡ ls
unfolding normalize_chart_lines
normalize-kept ls h =
    rw (stored_lines-map ls h.proper, take-short max_chart_lines ls h.few)
      (or_default-kept ls h.some_line)

-- The lines of the charts after a change, and those loaded from any stored value, are one to nine
-- trimmed texts that are not empty; stored and loaded again, they are the same lines.
pub chart_lines_stored :
    (lines : List String) (saved : Option Items)
    → IsStorable (handle_chart_lines_change lines)
      × IsStorable (load_chart_lines saved)
      × (load_chart_lines (some (some (map some (handle_chart_lines_change lines))))
          ≡ handle_chart_lines_change lines)
unfolding handle_chart_lines_change load_chart_lines
chart_lines_stored lines none = (
  normalize-IsStorable (some (map some lines)),
  or_default-IsStorable [] (omega arith) tt,
  normalize-kept (normalize_chart_lines max_chart_lines (some (map some lines)))
      (normalize-IsStorable (some (map some lines))),
)
chart_lines_stored lines (some saved) = (
  normalize-IsStorable (some (map some lines)),
  normalize-IsStorable saved,
  normalize-kept (normalize_chart_lines max_chart_lines (some (map some lines)))
      (normalize-IsStorable (some (map some lines))),
)
