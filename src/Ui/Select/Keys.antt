-- ===== src/Ui/Select/Keys.antt =====
-- The keys of a select.
use native.Mathlib.Nat.{mod-lt, add-mod_right, mod-eq_of_lt, mod_self}
use daili_usage_keeper_north.Base.{
  zero, ℕ, suc, ◌+◌, ◌-◌, ◌%◌, ◌<◌, ◌≡◌, refl, ap, ◌∙◌, String, Bool, true, false, ◌&&◌, Option,
  none, some, List, [], ◌∷◌, ltb, ◌==◌, get_elem?, length, arith, Bool-cases, Option-cases, inl,
  inr,
}
use daili_usage_keeper_north.Ui.Select.{
  SelectState, Key, arrow_down, arrow_up, home, end, enter, escape, tab, other_key, find_index,
  first_option, or_index, resolved_highlighted_index, Turn, commit_selection, turned,
  move_highlight, commit_resolved, handle_key_down,
}

-- An index of -1, or one of an option.
abbrev pub IsIndex : ℕ → Option ℕ → Type 0
IsIndex n none = Unit
IsIndex n (some i) = i < n

find_index-IsIndex :
    (value : String) (options : List String) → IsIndex (length options) (find_index value options)
unfolding find_index
find_index-IsIndex value [] = tt
find_index-IsIndex value (o ∷ os) = ground (arith, find_index-IsIndex value os)

or_index-IsIndex : (n : ℕ) (i j : Option ℕ) → IsIndex n i → IsIndex n j → IsIndex n (or_index i j)
or_index-IsIndex n none j h k = k
or_index-IsIndex n (some i) j h k = h

first_option-IsIndex : (options : List String) → IsIndex (length options) (first_option options)
first_option-IsIndex [] = tt
first_option-IsIndex (o ∷ os) = omega arith

resolved-IsIndex :
    (options : List String) (value : String) (s : SelectState)
    → IsIndex (length options) s.highlighted_index
    → IsIndex (length options) (resolved_highlighted_index options value s)
unfolding resolved_highlighted_index
resolved-IsIndex options value s h =
    or_index-IsIndex (length options) s.highlighted_index
      (or_index (find_index value options) (first_option options)) h
      (or_index-IsIndex (length options) (find_index value options) (first_option options)
        (find_index-IsIndex value options) (first_option-IsIndex options))

turned-in : (up : Bool) (n : ℕ) (i : Option ℕ) → 0 < n → turned up n i < n
turned-in true n none h = mod-lt (n + n - 2) h
turned-in false n none h = mod-lt (n + 0) h
turned-in true n (some i) h = mod-lt (i + n - 1) h
turned-in false n (some i) h = mod-lt (i + 1 + n) h

move_highlight-IsIndex :
    (up : Bool) (options : List String) (value : String) (s : SelectState)
    → IsIndex (length options) s.highlighted_index
    → IsIndex (length options) (move_highlight up options value s).highlighted_index
unfolding move_highlight
move_highlight-IsIndex up options value s h =
    ground (arith, turned-in up (length options) (resolved_highlighted_index options value s))

get_elem?-length :
    (options : List String) (i : ℕ) (v : String) → get_elem? options i ≡ some v → i < length options
get_elem?-length [] i v h = ground arith
get_elem?-length (o ∷ os) zero v h = omega arith
get_elem?-length (o ∷ os) (suc i) v h = omega (arith, get_elem?-length os i v h)

-- A choice closes the list and is the option that is left highlighted.
abbrev pub IsChoice : List String → SelectState → Option String → Type 0
IsChoice options s none = Unit
IsChoice options s (some v) =
    (s.is_open ≡ false)
    × ((i : ℕ) × (s.highlighted_index ≡ some i) × (get_elem? options i ≡ some v))

-- What holds after a key.
pub record IsTurn (options : List String) (t : Turn) : Type 0 where
  pub in_range : IsIndex (length options) t.0.highlighted_index
  pub choice : IsChoice options t.0 t.1

commit-IsTurn :
    (options : List String) (i : ℕ) (s : SelectState)
    → IsIndex (length options) s.highlighted_index
    → IsTurn options (commit_selection options i s)
unfolding commit_selection
commit-IsTurn options i s h = elim (Option-cases (get_elem? options i)) [
  | inl e ↦ rw (commit_selection, e) (record { in_range = h; choice = tt })
  | inr (v, e) ↦
      rw (commit_selection, e)
        (record { in_range = get_elem?-length options i v e; choice = (refl, (i, refl, e)) })
]

commit_resolved-IsTurn :
    (options : List String) (i : Option ℕ) (s : SelectState)
    → IsIndex (length options) s.highlighted_index
    → IsTurn options (commit_resolved options i s)
commit_resolved-IsTurn options none s h = record { in_range = h; choice = tt }
commit_resolved-IsTurn options (some i) s h = commit-IsTurn options i s h

-- Whatever key is pressed, the highlight stays on an option, and a value is chosen only together with
-- closing the list, as the option that is highlighted then.
pub handle_key_down_lem :
    (disabled : Bool) (options : List String) (value : String) (key : Key) (s : SelectState)
    → IsIndex (length options) s.highlighted_index
    → IsTurn options (handle_key_down disabled options value key s)
unfolding handle_key_down
handle_key_down_lem true options value key s h = record { in_range = h; choice = tt }
handle_key_down_lem false options value arrow_down s h = record {
  in_range = ground (arith, move_highlight-IsIndex false options value s h);
  choice = tt;
}
handle_key_down_lem false options value arrow_up s h = record {
  in_range = ground (arith, move_highlight-IsIndex true options value s h);
  choice = tt;
}
handle_key_down_lem false options value home s h = record { in_range = ground arith; choice = tt }
handle_key_down_lem false options value end s h = record { in_range = ground arith; choice = tt }
handle_key_down_lem false options value enter s h = elim (Bool-cases (s.is_open && true)) [
  | inl e ↦ rw e (commit_resolved-IsTurn options (resolved_highlighted_index options value s) s h)
  | inr e ↦ rw e (record { in_range = h; choice = tt })
]
handle_key_down_lem false options value escape s h = record { in_range = ground arith; choice = tt }
handle_key_down_lem false options value tab s h = record { in_range = ground arith; choice = tt }
handle_key_down_lem false options value other_key s h = record { in_range = h; choice = tt }

down_then_up : (n i : ℕ) → i < n → turned true n (some (turned false n (some i))) ≡ i
down_then_up n i h = elim (Bool-cases (ltb (i + 1) n)) [
  | inl e ↦
      let a : (i + 1 + n) % n ≡ i + 1 = add-mod_right (i + 1) n ∙ mod-eq_of_lt (ground arith) in
      let b : i + 1 + n - 1 ≡ i + n = omega arith in rw (a, b) (add-mod_right i n ∙ mod-eq_of_lt h)
  | inr e ↦
      let b : i + 1 + n ≡ n + n = ground arith in
      let a : (n + n) % n ≡ 0 = add-mod_right n n ∙ mod_self n in
      rw (b, a) (mod-eq_of_lt (omega arith) ∙ ground arith)
]

moved :
    (up : Bool) (options : List String) (value : String) (s : SelectState) (i : ℕ)
    → i < length options
    → resolved_highlighted_index options value s ≡ some i
    → move_highlight up options value s
      ≡ record s { highlighted_index = some (turned up (length options) (some i)) }
unfolding move_highlight
moved up options value s i h e =
    let k : (length options == 0) ≡ false = ground arith in rw (k, e) refl

resolved_own :
    (options : List String) (value : String) (s : SelectState) (i : ℕ)
    → resolved_highlighted_index options value (record s { highlighted_index = some i }) ≡ some i
unfolding resolved_highlighted_index
resolved_own options value s i = refl

down_up :
    (options : List String) (value : String) (s : SelectState) (i : ℕ)
    → i < length options
    → resolved_highlighted_index options value s ≡ some i
    → move_highlight true options value (move_highlight false options value s)
      ≡ record s { highlighted_index = some i }
down_up options value s i h e = rw (moved false options value s i h e) (
    moved true options value _ (turned false (length options) (some i))
      (turned-in false (length options) (some i) (omega arith))
      (resolved_own options value s (turned false (length options) (some i)))
    ∙ ap (λ j. record s { highlighted_index = some j }) (down_then_up (length options) i h))

-- An open list with a highlighted index.
abbrev pub open_at : Option ℕ → SelectState
open_at j = record { is_open = true; highlighted_index = j }

arrow_key :
    (options : List String) (value : String) (s : SelectState)
    → s.is_open ≡ true
    → (handle_key_down false options value arrow_down s
        ≡ (move_highlight false options value s, none))
      × (handle_key_down false options value arrow_up s
          ≡ (move_highlight true options value s, none))
unfolding handle_key_down
arrow_key options value s h = rw h (refl, refl)

-- On an open list the arrow up takes back the arrow down, at the ends of the list too.
pub arrow_up-arrow_down :
    (options : List String) (value : String) (j : Option ℕ) (i : ℕ)
    → i < length options
    → resolved_highlighted_index options value (open_at j) ≡ some i
    → handle_key_down false options value arrow_up
        (handle_key_down false options value arrow_down (open_at j)).0
      ≡ (open_at (some i), none)
arrow_up-arrow_down options value j i h e =
    let k : (move_highlight false options value (open_at j)).is_open ≡ true =
      ap (λ s. s.is_open) (moved false options value (open_at j) i h e) in
    ap (λ t. handle_key_down false options value arrow_up t.0)
      (arrow_key options value (open_at j) refl).0
    ∙ (arrow_key options value (move_highlight false options value (open_at j)) k).1
    ∙ ap (λ s. (s, none)) (down_up options value (open_at j) i h e)
