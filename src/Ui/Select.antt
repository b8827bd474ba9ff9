-- ===== src/Ui/Select.antt =====
-- The keys and the place of the list of web/src/components/ui/Select.tsx.
pub mod Keys
pub mod Place
use daili_usage_keeper_north.Base.{
  ℕ, ◌+◌, ◌-◌, ◌%◌, String, Bool, true, false, not, ◌&&◌, ◌||◌, Option, none, some, List, [], ◌∷◌,
  if◌then◌else◌, ltb, ◌==◌, ℤ, pos, ◌+ℤ◌, ◌-ℤ◌, max_ℤ, min_ℤ, leb_ℤ, get_elem?, length, str_eq,
  or_else,
}

-- `getBoundingClientRect()`, in whole pixels.
pub record Rect : Type 0 where
  pub top : ℤ
  pub bottom : ℤ
  pub left : ℤ
  pub width : ℤ

-- `top` for a list that opens down, `bottom` for one that opens up.
pub data Edge : Type 0 where
  from_top : ℤ → Edge
  from_bottom : ℤ → Edge

pub record DropdownStyle : Type 0 where
  pub edge : Edge
  pub left : ℤ
  pub width : ℤ
  pub max_height : ℤ

abbrev pub viewport_margin : ℤ
viewport_margin = pos 8

abbrev pub dropdown_offset : ℤ
dropdown_offset = pos 6

abbrev pub dropdown_max_height : ℤ
dropdown_max_height = pos 240

abbrev pub clamp : ℤ → ℤ → ℤ → ℤ
clamp value low high = min_ℤ (max_ℤ value low) high

abbrev pub dropdown_width : Rect → ℤ → ℤ
dropdown_width rect viewport_width = min_ℤ rect.width (max_ℤ (pos 0) (viewport_width -ℤ pos 16))

abbrev pub space_below : Rect → ℤ → ℤ
space_below rect viewport_height =
    viewport_height -ℤ rect.bottom -ℤ viewport_margin -ℤ dropdown_offset

abbrev pub space_above : Rect → ℤ
space_above rect = rect.top -ℤ viewport_margin -ℤ dropdown_offset

abbrev pub opens_down : Rect → ℤ → Bool
opens_down rect viewport_height =
    leb_ℤ dropdown_max_height (space_below rect viewport_height)
    || leb_ℤ (space_above rect) (space_below rect viewport_height)

unfoldable pub resolve_dropdown_style : Rect → (viewport_width viewport_height : ℤ) → DropdownStyle
resolve_dropdown_style rect viewport_width viewport_height =
    let width = dropdown_width rect viewport_width in
    let left =
      clamp rect.left viewport_margin
        (max_ℤ viewport_margin (viewport_width -ℤ width -ℤ viewport_margin)) in
    let space =
      if opens_down rect viewport_height
      then space_below rect viewport_height
      else space_above rect in
    record {
      edge =
          (if opens_down rect viewport_height
            then from_top (rect.bottom +ℤ dropdown_offset)
            else from_bottom (viewport_height -ℤ rect.top +ℤ dropdown_offset));
      left = left;
      width = width;
      max_height = max_ℤ (pos 0) (min_ℤ dropdown_max_height space);
    }

-- The state of a select; a highlighted index of -1 is `none`.
pub record SelectState : Type 0 where
  pub is_open : Bool
  pub highlighted_index : Option ℕ

pub data Key : Type 0 where
  arrow_down arrow_up home end enter escape tab other_key : Key

-- `options.findIndex((option) => option.value === value)`, on the values of the options.
unfoldable pub find_index : String → List String → Option ℕ
find_index value [] = none
find_index value (o ∷ os) =
    let rest = find_index value os in
    if str_eq o value then some 0 else elim rest [ none ↦ none | some i ↦ some (i + 1) ]

abbrev pub first_option : List String → Option ℕ
first_option [] = none
first_option (o ∷ os) = some 0

abbrev pub or_index : Option ℕ → Option ℕ → Option ℕ
or_index none j = j
or_index (some i) j = some i

unfoldable pub resolved_highlighted_index : List String → String → SelectState → Option ℕ
unfolding find_index
resolved_highlighted_index options value s =
    or_index s.highlighted_index (or_index (find_index value options) (first_option options))

-- The new state, and what `onChange` is called with.
abbrev pub Turn : Type 0
Turn = SelectState × Option String

unfoldable pub commit_selection : List String → ℕ → SelectState → Turn
commit_selection options i s = elim (get_elem? options i) [
  | none ↦ (s, none)
  | some v ↦ (record s { is_open = false; highlighted_index = some i }, some v)
]

-- `(index + direction + length) % length`, where the index may be -1; up is the direction -1.
abbrev pub turned : Bool → ℕ → Option ℕ → ℕ
turned up n none = if up then (n + n - 2) % n else (n + 0) % n
turned up n (some i) = if up then (i + n - 1) % n else (i + 1 + n) % n

unfoldable pub move_highlight : Bool → List String → String → SelectState → SelectState
unfolding resolved_highlighted_index
move_highlight up options value s = if length options == 0 then s else record s {
  highlighted_index =
      some (turned up (length options) (resolved_highlighted_index options value s));
}

abbrev pub opened : SelectState → SelectState
opened s = record s { is_open = true }

abbrev pub commit_resolved : List String → Option ℕ → SelectState → Turn
commit_resolved options none s = (s, none)
commit_resolved options (some i) s = commit_selection options i s

unfoldable pub handle_key_down : Bool → List String → String → Key → SelectState → Turn
unfolding move_highlight commit_selection resolved_highlighted_index
handle_key_down disabled options value key s =
    let active = s.is_open && not disabled in
    let idle = not active || length options == 0 in
    if disabled then (s, none) else elim key [
      | arrow_down ↦ (if active then move_highlight false options value s else opened s, none)
      | arrow_up ↦ (if active then move_highlight true options value s else opened s, none)
      | home ↦ (if idle then s else record s { highlighted_index = some 0 }, none)
      | end ↦ (if idle then s else record s { highlighted_index = some (length options - 1) }, none)
      | enter ↦
          if active
          then commit_resolved options (resolved_highlighted_index options value s) s
          else (opened s, none)
      | escape ↦ (if active then record s { is_open = false } else s, none)
      | tab ↦ (if active then record s { is_open = false } else s, none)
      | other_key ↦ (s, none)
    ]

-- `onMouseEnter` of an option, and a click on the trigger.
abbrev pub mouse_enter : ℕ → SelectState → SelectState
mouse_enter i s = record s { highlighted_index = some i }

abbrev pub click_trigger : Bool → SelectState → SelectState
click_trigger disabled s = if disabled then s else record s { is_open = not s.is_open }
