-- ===== src/Ui/Select/Place.antt =====
-- The place of a select's list.
use daili_usage_keeper_north.Base.{
  if◌then◌else◌, ℤ, pos, ◌+ℤ◌, ◌-ℤ◌, max_ℤ, min_ℤ, ◌≤ℤ◌, arith, int_laws, ◌⊎◌,
}
use daili_usage_keeper_north.Ui.Select.{
  Rect, dropdown_width, space_below, space_above, opens_down, resolve_dropdown_style,
}

-- `Math.max` and `Math.min`, by the orders that they give.
abbrev IsMax : ℤ → ℤ → ℤ → Type 0
IsMax a b m = (a ≤ℤ m) × (b ≤ℤ m) × ((m ≤ℤ a) ⊎ (m ≤ℤ b))

abbrev IsMin : ℤ → ℤ → ℤ → Type 0
IsMin a b m = (m ≤ℤ a) × (m ≤ℤ b) × ((a ≤ℤ m) ⊎ (b ≤ℤ m))

max_ℤ-IsMax : (a b : ℤ) → IsMax a b (max_ℤ a b)
max_ℤ-IsMax a b = ground arith

min_ℤ-IsMin : (a b : ℤ) → IsMin a b (min_ℤ a b)
min_ℤ-IsMin a b = ground arith

width_in :
    (r w n m : ℤ)
    → IsMax (pos 0) (w -ℤ pos 16) n
    → IsMin r n m
    → pos 16 ≤ℤ w
    → (m ≤ℤ r) × (m +ℤ pos 16 ≤ℤ w)
width_in r w n m h k l = omega int_laws

left_in :
    (l w width n high left : ℤ)
    → IsMax l (pos 8) n
    → IsMax (pos 8) (w -ℤ width -ℤ pos 8) high
    → IsMin n high left
    → width +ℤ pos 16 ≤ℤ w
    → (pos 8 ≤ℤ left) × (left +ℤ width +ℤ pos 8 ≤ℤ w)
left_in l w width n high left h k m e = omega int_laws

height_in :
    (space n m : ℤ)
    → IsMin (pos 240) space n
    → IsMax (pos 0) n m
    → (pos 0 ≤ℤ m) × (m ≤ℤ pos 240) × ((m ≤ℤ space) ⊎ (m ≤ℤ pos 0))
height_in space n m h k = omega int_laws

-- The room on the side that the list opens to.
abbrev pub room : Rect → ℤ → ℤ
room rect h = if opens_down rect h then space_below rect h else space_above rect

-- In a viewport of 16 pixels or more, the list stands 8 pixels or more from its sides and is no wider than
-- the select; it is at most 240 pixels high, and no higher than the room that it opens to.
resolve_dropdown_style_lem :
    (rect : Rect) (w h : ℤ)
    → pos 16 ≤ℤ w
    → (pos 8 ≤ℤ (resolve_dropdown_style rect w h).left)
      × ((resolve_dropdown_style rect w h).left +ℤ (resolve_dropdown_style rect w h).width +ℤ pos 8
          ≤ℤ w)
      × ((resolve_dropdown_style rect w h).width ≤ℤ rect.width)
      × (pos 0 ≤ℤ (resolve_dropdown_style rect w h).max_height)
      × ((resolve_dropdown_style rect w h).max_height ≤ℤ pos 240)
      × (((resolve_dropdown_style rect w h).max_height ≤ℤ room rect h)
          ⊎ ((resolve_dropdown_style rect w h).max_height ≤ℤ pos 0))
unfolding resolve_dropdown_style
resolve_dropdown_style_lem rect w h a =
    let width = dropdown_width rect w in
    let e =
      width_in rect.width w _ width (max_ℤ-IsMax (pos 0) (w -ℤ pos 16)) (min_ℤ-IsMin rect.width _)
        a in
    let high = max_ℤ (pos 8) (w -ℤ width -ℤ pos 8) in
    let f =
      left_in rect.left w width _ high _ (max_ℤ-IsMax rect.left (pos 8))
        (max_ℤ-IsMax (pos 8) (w -ℤ width -ℤ pos 8)) (min_ℤ-IsMin _ high) e.1 in
    let g =
      height_in (room rect h) _ _ (min_ℤ-IsMin (pos 240) (room rect h))
        (max_ℤ-IsMax (pos 0) (min_ℤ (pos 240) (room rect h))) in
    (f.0, f.1, e.0, g.0, g.1, g.2)
