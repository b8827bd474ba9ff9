-- ===== src/Cards/Tooltip/Laws.antt =====
-- Where the tooltip stands in the window.
use daili_usage_keeper_north.Base.{
  ℕ, ◌≡◌, some, arith, refl, true, false, Bool-cases, inl, inr, ℤ, pos, ◌+ℤ◌, ◌-ℤ◌, ◌≤ℤ◌, int_laws,
  leb_ℤ,
}
use daili_usage_keeper_north.Cards.Tooltip.{
  BlockRect, ActiveTooltip, Horizontal, center, to_left, to_right, build_tooltip_state,
  horizontal_of, left2_of, vertical_of, top_of, center2, tooltip_safe_width, tooltip_safe_height,
  Shift, no_shift, half_shift, whole_shift, translate_x_of, translate_y_of,
}

-- Twice the side of a tooltip of a size that is placed at half of the second argument and then shifted.
abbrev pub side2 : Shift → ℤ → ℤ → ℤ
side2 no_shift place2 size = place2
side2 half_shift place2 size = place2 -ℤ size
side2 whole_shift place2 size = place2 -ℤ size -ℤ size

-- The block is in the window.
pub record IsInside (rect : BlockRect) (inner_width : ℤ) : Type 0 where
  pub from_left : pos 0 ≤ℤ rect.left
  pub wide : rect.left ≤ℤ rect.right
  pub from_right : rect.right ≤ℤ inner_width

leb_ℤ-true : (a b : ℤ) → leb_ℤ a b ≡ true → a ≤ℤ b
leb_ℤ-true a b h = ground arith

leb_ℤ-false : (a b : ℤ) → leb_ℤ a b ≡ false → b ≤ℤ a
leb_ℤ-false a b h = ground arith

-- The tooltip of this width is in the window.
abbrev Fits : Horizontal → ℤ → ℤ → ℤ → Type 0
Fits h left2 width inner_width =
    (pos 0 ≤ℤ side2 (translate_x_of h) left2 width)
    × (side2 (translate_x_of h) left2 width +ℤ width +ℤ width ≤ℤ inner_width +ℤ inner_width)

module _ (rect : BlockRect) (w width : ℤ) (inside : IsInside rect w) (big : pos 270 ≤ℤ w)
    (no_width : pos 0 ≤ℤ width) (narrow : width ≤ℤ pos 180) where
  Fits-left : rect.left +ℤ rect.right ≤ℤ pos 180 → Fits to_left (left2_of to_left rect) width w
  Fits-left c = omega (int_laws, inside.from_left, inside.wide, inside.from_right)

  Fits-right :
      w +ℤ w -ℤ pos 180 ≤ℤ rect.left +ℤ rect.right → Fits to_right (left2_of to_right rect) width w
  Fits-right c = omega (int_laws, inside.from_left, inside.wide, inside.from_right)

  Fits-center :
      pos 180 ≤ℤ rect.left +ℤ rect.right
      → rect.left +ℤ rect.right ≤ℤ w +ℤ w -ℤ pos 180
      → Fits center (left2_of center rect) width w
  Fits-center c d = omega int_laws

  horizontal-Fits : Fits (horizontal_of rect w) (left2_of (horizontal_of rect w) rect) width w
  horizontal-Fits = elim (Bool-cases (leb_ℤ (center2 rect) tooltip_safe_width)) [
    | inl e ↦ rw e (Fits-left (leb_ℤ-true (center2 rect) tooltip_safe_width e))
    | inr e ↦ elim (Bool-cases (leb_ℤ (w +ℤ w -ℤ tooltip_safe_width) (center2 rect))) [
      | inl k ↦ rw (e, k) (Fits-right (leb_ℤ-true (w +ℤ w -ℤ tooltip_safe_width) (center2 rect) k))
      | inr k ↦
          rw (e, k)
            (Fits-center (leb_ℤ-false (center2 rect) tooltip_safe_width e)
              (leb_ℤ-false (w +ℤ w -ℤ tooltip_safe_width) (center2 rect) k))
    ]
  ]

below_top :
    (top height : ℤ)
    → pos 72 ≤ℤ top
    → height ≤ℤ pos 64
    → pos 0 ≤ℤ top -ℤ pos 8 +ℤ (top -ℤ pos 8) -ℤ height -ℤ height
below_top top height a b = omega int_laws

-- The upper side of the tooltip is in the window.
vertical_fits :
    (rect : BlockRect) (height : ℤ)
    → pos 0 ≤ℤ rect.bottom
    → height ≤ℤ pos 64
    → pos 0
      ≤ℤ side2
          (translate_y_of (vertical_of rect))
          (top_of (vertical_of rect) rect +ℤ top_of (vertical_of rect) rect)
          height
vertical_fits rect height b h = elim (Bool-cases (leb_ℤ rect.top tooltip_safe_height)) [
  | inl e ↦ rw e (omega int_laws)
  | inr e ↦ rw e (below_top rect.top height (leb_ℤ-false rect.top tooltip_safe_height e) h)
]

-- In a window of 270 pixels or more, the tooltip of a block in the window, no wider than 180 pixels and
-- no higher than 64, stands within both sides of the window and does not reach above it.
pub build_tooltip_state_lem :
    (idx : ℕ) (rect : BlockRect) (w width height : ℤ)
    → IsInside rect w
    → pos 270 ≤ℤ w
    → pos 0 ≤ℤ width
    → width ≤ℤ pos 180
    → pos 0 ≤ℤ rect.bottom
    → height ≤ℤ pos 64
    → (t : ActiveTooltip) × (build_tooltip_state idx (some rect) w ≡ some t)
      × (t.idx ≡ idx)
      × (pos 0 ≤ℤ side2 t.translate_x t.left2 width)
      × (side2 t.translate_x t.left2 width +ℤ width +ℤ width ≤ℤ w +ℤ w)
      × (pos 0 ≤ℤ side2 t.translate_y (t.top +ℤ t.top) height)
unfolding build_tooltip_state
build_tooltip_state_lem idx rect w width height inside big n s b h =
    let sides = horizontal-Fits rect w width inside big n s in
    (_, refl, refl, sides.0, sides.1, vertical_fits rect height b h)
