-- ===== src/Cards/LineEditor/Laws.antt =====
-- What the editor of the lines does to lines that can be stored.
use daili_usage_keeper_north.Base.{
  ℕ, zero, suc, ◌+◌, ◌≤◌, ◌≡◌, refl, String, false, Option, none, some, List, [], ◌∷◌, ◌++◌, length,
  length-append, leb, All, All-append, arith, subst, Bool-cases, inl, inr,
}
use daili_usage_keeper_north.Page.Controls.{handle_chart_lines_change, max_chart_lines}
use daili_usage_keeper_north.Page.Controls.Lines.{IsLine, IsStorable, all-IsLine, normalize-kept}
use daili_usage_keeper_north.Cards.LineEditor.{
  has_line, unused_model, model_or_all, handle_add, remove_line, handle_remove, replace_line,
  handle_change,
}

-- A click on one of the buttons, or a choice in one of the selects.
pub data Edit : Type 0 where
  add : Edit
  remove : ℕ → Edit
  change : ℕ → String → Edit

abbrev pub apply_edit : List String → Edit → List String → Option (List String)
apply_edit models add lines = handle_add max_chart_lines models lines
apply_edit models (remove i) lines = handle_remove i lines
apply_edit models (change i value) lines = handle_change i value lines

-- The selects offer proper lines.
abbrev pub Offers : Edit → Type 0
Offers add = Unit
Offers (remove i) = Unit
Offers (change i value) = IsLine value

model_or_all-IsLine :
    (models lines : List String)
    → All IsLine models
    → IsLine (model_or_all (unused_model lines models))
model_or_all-IsLine [] lines h = all-IsLine
model_or_all-IsLine (m ∷ models) lines h = elim (Bool-cases (has_line lines m)) [
  | inl e ↦ rw e (model_or_all-IsLine models lines h.1)
  | inr e ↦ rw (e, h.0.full) (h.0)
]

remove_line-IsLine :
    (i : ℕ) (lines : List String) → All IsLine lines → All IsLine (remove_line i lines)
remove_line-IsLine i [] h = tt
remove_line-IsLine zero (l ∷ lines) h = h.1
remove_line-IsLine (suc i) (l ∷ lines) h = (h.0, remove_line-IsLine i lines h.1)

replace_line-IsLine :
    (i : ℕ) (v : String) (lines : List String)
    → IsLine v
    → All IsLine lines
    → All IsLine (replace_line i v lines)
replace_line-IsLine i v [] k h = tt
replace_line-IsLine zero v (l ∷ lines) k h = (k, h.1)
replace_line-IsLine (suc i) v (l ∷ lines) k h = (h.0, replace_line-IsLine i v lines k h.1)

length-remove_line :
    (i : ℕ) (lines : List String)
    → (length (remove_line i lines) ≤ length lines)
      × (length lines ≤ length (remove_line i lines) + 1)
length-remove_line i [] = omega arith
length-remove_line zero (l ∷ lines) = omega arith
length-remove_line (suc i) (l ∷ lines) = omega (arith, length-remove_line i lines)

length-replace_line :
    (i : ℕ) (v : String) (lines : List String) → length (replace_line i v lines) ≡ length lines
length-replace_line i v [] = refl
length-replace_line zero v (l ∷ lines) = refl
length-replace_line (suc i) v (l ∷ lines) = omega (arith, length-replace_line i v lines)

-- Lines that are short enough, not none, and proper, by what they are.
storable :
    (ls result : List String)
    → some result ≡ some ls
    → 1 ≤ length result
    → length result ≤ max_chart_lines
    → All IsLine result
    → IsStorable ls
storable ls result e few many proper =
    subst IsStorable (cc) (record { some_line = few; few = many; proper = proper })

room_left : (n : ℕ) → leb max_chart_lines n ≡ false → n + 1 ≤ max_chart_lines
room_left n h = ground arith

more_than_one : (n : ℕ) → leb n 1 ≡ false → 2 ≤ n
more_than_one n h = ground arith

edit-IsStorable :
    (edit : Edit) (models lines ls : List String)
    → All IsLine models
    → Offers edit
    → IsStorable lines
    → apply_edit models edit lines ≡ some ls
    → IsStorable ls
unfolding handle_add handle_remove handle_change
edit-IsStorable add models lines ls m o h e =
    elim (Bool-cases (leb max_chart_lines (length lines))) [
      | inl full ↦ let no : none ≡ some ls = rw full at e in absurd (cc)
      | inr room ↦
          let line = model_or_all (unused_model lines models) in
          storable ls (lines ++ line ∷ []) (rw room at e)
            (omega (arith, length-append lines (line ∷ [])))
            (omega (arith, length-append lines (line ∷ []), room_left (length lines) room))
            (All-append IsLine lines (line ∷ []) h.proper (model_or_all-IsLine models lines m, tt))
    ]
edit-IsStorable (remove i) models lines ls m o h e = elim (Bool-cases (leb (length lines) 1)) [
  | inl one ↦ let no : none ≡ some ls = rw one at e in absurd (cc)
  | inr more ↦
      storable ls (remove_line i lines) (rw more at e)
        (omega (arith, length-remove_line i lines, more_than_one (length lines) more))
        (omega (arith, length-remove_line i lines, h.few)) (remove_line-IsLine i lines h.proper)
]
edit-IsStorable (change i v) models lines ls m o h e =
    storable ls (replace_line i v lines) e
      (omega (arith, length-replace_line i v lines, h.some_line))
      (omega (arith, length-replace_line i v lines, h.few))
      (replace_line-IsLine i v lines o h.proper)

-- From one to nine proper lines, with proper names of models, every button and every select of the
-- editor leaves one to nine proper lines, so that the page takes them as they are.
pub handle_chart_lines_change-edit :
    (edit : Edit) (models lines ls : List String)
    → All IsLine models
    → Offers edit
    → IsStorable lines
    → apply_edit models edit lines ≡ some ls
    → IsStorable ls × (handle_chart_lines_change ls ≡ ls)
unfolding handle_chart_lines_change
handle_chart_lines_change-edit edit models lines ls m o h e =
    let kept = edit-IsStorable edit models lines ls m o h e in (kept, normalize-kept ls kept)
