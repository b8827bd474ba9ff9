-- ===== src/Cards/Tooltip.antt =====
-- The tooltip of web/src/components/usage/ServiceHealthCard.tsx: where it stands, and when it is shown.
-- Positions are whole pixels; the middle of a block is kept twice as large, and `Math.round` is left to
-- the end.
pub mod Laws
use daili_usage_keeper_north.Base.{
  ℕ, Bool, true, false, Option, none, some, if◌then◌else◌, ◌==◌, ℤ, pos, ◌+ℤ◌, ◌-ℤ◌, leb_ℤ,
}

-- `getBoundingClientRect()`
pub record BlockRect : Type 0 where
  pub left : ℤ
  pub right : ℤ
  pub top : ℤ
  pub bottom : ℤ

abbrev pub tooltip_offset : ℤ
tooltip_offset = pos 8

abbrev pub tooltip_safe_width : ℤ
tooltip_safe_width = pos 180

abbrev pub tooltip_safe_height : ℤ
tooltip_safe_height = pos 72

pub data Horizontal : Type 0 where
  center to_left to_right : Horizontal

pub data Vertical : Type 0 where
  above below : Vertical

-- `0`, `-50%` and `-100%` of the tooltip's own width or height.
pub data Shift : Type 0 where
  no_shift half_shift whole_shift : Shift

pub record ActiveTooltip : Type 0 where
  pub idx : ℕ
  pub horizontal : Horizontal
  pub vertical : Vertical
  -- Twice `left`.
  pub left2 : ℤ
  pub top : ℤ
  -- `transform` is `translate(…, …)` of these.
  pub translate_x : Shift
  pub translate_y : Shift

abbrev pub center2 : BlockRect → ℤ
center2 rect = rect.left +ℤ rect.right

abbrev pub horizontal_of : BlockRect → ℤ → Horizontal
horizontal_of rect inner_width =
    if leb_ℤ (center2 rect) tooltip_safe_width
    then to_left
    else if leb_ℤ (inner_width +ℤ inner_width -ℤ tooltip_safe_width) (center2 rect)
    then to_right
    else center

abbrev pub left2_of : Horizontal → BlockRect → ℤ
left2_of center rect = center2 rect
left2_of to_left rect = rect.left +ℤ rect.left
left2_of to_right rect = rect.right +ℤ rect.right

abbrev pub vertical_of : BlockRect → Vertical
vertical_of rect = if leb_ℤ rect.top tooltip_safe_height then below else above

abbrev pub top_of : Vertical → BlockRect → ℤ
top_of below rect = rect.bottom +ℤ tooltip_offset
top_of above rect = rect.top -ℤ tooltip_offset

abbrev pub translate_x_of : Horizontal → Shift
translate_x_of center = half_shift
translate_x_of to_right = whole_shift
translate_x_of to_left = no_shift

abbrev pub translate_y_of : Vertical → Shift
translate_y_of below = no_shift
translate_y_of above = whole_shift

-- The rectangle of the block, `none` for one that is not in the page.
unfoldable pub build_tooltip_state : ℕ → Option BlockRect → ℤ → Option ActiveTooltip
build_tooltip_state idx none inner_width = none
build_tooltip_state idx (some rect) inner_width =
    let h = horizontal_of rect inner_width in
    let v = vertical_of rect in
    some (record {
      idx = idx;
      horizontal = h;
      vertical = v;
      left2 = left2_of h rect;
      top = top_of v rect;
      translate_x = translate_x_of h;
      translate_y = translate_y_of v;
    })

-- The window is scrolled or resized: the tooltip goes along with its block, or away with it.
unfoldable pub update_tooltip_position :
    (ℕ → Option BlockRect) → ℤ → Option ActiveTooltip → Option ActiveTooltip
unfolding build_tooltip_state
update_tooltip_position rects inner_width none = none
update_tooltip_position rects inner_width (some t) =
    build_tooltip_state t.idx (rects t.idx) inner_width

-- `pointerType`
pub data Pointer : Type 0 where
  mouse touch pen : Pointer

unfoldable pub handle_pointer_enter :
    Pointer → ℕ → Option BlockRect → ℤ → Option ActiveTooltip → Option ActiveTooltip
unfolding build_tooltip_state
handle_pointer_enter mouse idx rect inner_width shown = build_tooltip_state idx rect inner_width
handle_pointer_enter _ idx rect inner_width shown = shown

unfoldable pub handle_pointer_leave : Pointer → Option ActiveTooltip → Option ActiveTooltip
handle_pointer_leave mouse shown = none
handle_pointer_leave _ shown = shown

-- `prev?.idx === idx`
abbrev pub is_shown_at : ℕ → Option ActiveTooltip → Bool
is_shown_at idx none = false
is_shown_at idx (some t) = t.idx == idx

unfoldable pub handle_pointer_down :
    Pointer → ℕ → Option BlockRect → ℤ → Option ActiveTooltip → Option ActiveTooltip
unfolding build_tooltip_state
handle_pointer_down touch idx rect inner_width shown =
    if is_shown_at idx shown then none else build_tooltip_state idx rect inner_width
handle_pointer_down _ idx rect inner_width shown = shown
