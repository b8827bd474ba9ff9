-- ===== src/Cards/Tests.antt =====
-- The theorems about the cards at concrete values.
use daili_usage_keeper_north.Base.{
  ◌≡◌, refl, String, some, List, [], ◌∷◌, map, trim, pos, ◌+ℤ◌, ◌≤ℤ◌, arith, IsOrder, ℕ, Option,
  ◌*◌, ◌/◌, none, true, leb, ltb, Bool,
}
use mathlib.Core.List.{Perm}
use daili_usage_keeper_north.Page.Controls.{handle_chart_lines_change}
use daili_usage_keeper_north.Page.Controls.Lines.{IsLine, IsStorable, all-IsLine}
use daili_usage_keeper_north.Cards.{UsageIdentity, credential_row}
use daili_usage_keeper_north.Cards.Tables.{
  Arithmetic, ModelStat, Sorting, SortKey, by_average_latency, asc, with_rate, sorted_models,
}
use daili_usage_keeper_north.Cards.Tables.Order.{IsRate}
use daili_usage_keeper_north.Cards.Tables.Laws.{IsFiniteOrder, IsInOrder, sorted_models_lem}
use daili_usage_keeper_north.Cards.LineEditor.{handle_add}
use daili_usage_keeper_north.Cards.LineEditor.Laws.{add, apply_edit, handle_chart_lines_change-edit}
use daili_usage_keeper_north.Cards.Tooltip.{BlockRect, ActiveTooltip, build_tooltip_state}
use daili_usage_keeper_north.Cards.Tooltip.Laws.{IsInside, side2, build_tooltip_state_lem}

abbrev identity : String → UsageIdentity
identity name = record {
  id = 0;
  name = name;
  auth_type_name = "key";
  identity = "sk-1";
  type_name = "";
  total_requests = 0;
  success_count = 4;
  failure_count = 1;
}

counted :
    ((credential_row (identity " ")).total ≡ 5) × ((credential_row (identity " ")).key ≡ "sk-1")
unfolding credential_row
counted = (refl, refl)

gpt-IsLine : IsLine "gpt"
unfolding trim
gpt-IsLine = record { trimmed = refl; full = refl }

one-IsStorable : IsStorable ("all" ∷ [])
one-IsStorable = record { some_line = omega arith; few = omega arith; proper = (all-IsLine, tt) }

added : apply_edit ("gpt" ∷ []) add ("all" ∷ []) ≡ some ("all" ∷ "gpt" ∷ [])
unfolding handle_add
added = refl

handle_chart_lines_change-edit_example :
    IsStorable ("all" ∷ "gpt" ∷ [])
    × (handle_chart_lines_change ("all" ∷ "gpt" ∷ []) ≡ "all" ∷ "gpt" ∷ [])
handle_chart_lines_change-edit_example =
    handle_chart_lines_change-edit add ("gpt" ∷ []) ("all" ∷ []) ("all" ∷ "gpt" ∷ [])
      (gpt-IsLine, tt) tt one-IsStorable added

-- A block at the upper right of a narrow window.
abbrev block : BlockRect
block = record { left = pos 300; right = pos 312; top = pos 40; bottom = pos 52 }

block-IsInside : IsInside block (pos 320)
block-IsInside = record { from_left = omega arith; wide = omega arith; from_right = omega arith }

build_tooltip_state_example :
    (t : ActiveTooltip) × (build_tooltip_state 3 (some block) (pos 320) ≡ some t)
    × (t.idx ≡ 3)
    × (pos 0 ≤ℤ side2 t.translate_x t.left2 (pos 170))
    × (side2 t.translate_x t.left2 (pos 170) +ℤ pos 170 +ℤ pos 170 ≤ℤ pos 320 +ℤ pos 320)
    × (pos 0 ≤ℤ side2 t.translate_y (t.top +ℤ t.top) (pos 60))
build_tooltip_state_example =
    build_tooltip_state_lem 3 block (pos 320) (pos 170) (pos 60) block-IsInside (omega arith)
      (omega arith) (omega arith) (omega arith) (omega arith)

abbrev whole_numbers : Arithmetic ℕ
whole_numbers = record {
  is_finite = λ x. true;
  is_positive = λ x. ltb 0 x;
  percent = λ x y. x * 100 / y;
  hundred = 100;
  leq = leb;
}

-- A collation for which all texts are the same.
abbrev any_order : String → String → Bool
any_order a b = true

any_order-IsOrder : IsOrder any_order
any_order-IsOrder = record { total = λ x y h. refl; trans = λ x y z h k. refl }

whole_numbers-IsFiniteOrder : IsFiniteOrder whole_numbers
whole_numbers-IsFiniteOrder = record {
  total = λ x y f g h. ground arith;
  trans = λ x y z f g i h k. ground arith;
}

abbrev model_stat : String → Option ℕ → ModelStat ℕ
model_stat model latency = record {
  model = model;
  requests = 4;
  success_count = 3;
  tokens = 50;
  cost = 2;
  average_latency_ms = latency;
  total_latency_ms = none;
}

abbrev by_latency : Sorting SortKey
by_latency = record { sort_key = by_average_latency; sort_dir = asc }

abbrev model_stats : List (ModelStat ℕ)
model_stats = model_stat "a" none ∷ model_stat "b" (some 20) ∷ model_stat "c" (some 10) ∷ []

latencies :
    map (λ r. r.stat.model) (sorted_models any_order whole_numbers by_latency model_stats)
    ≡ "c" ∷ "b" ∷ "a" ∷ []
unfolding sorted_models
latencies = refl

sorted_models_example :
    let rows = sorted_models any_order whole_numbers by_latency model_stats in
    Perm rows (map (with_rate whole_numbers) model_stats)
    × ((m : ModelStat ℕ)
        → ((with_rate whole_numbers m).stat ≡ m)
          × IsRate whole_numbers m (with_rate whole_numbers m).success_rate)
    × IsInOrder any_order whole_numbers by_average_latency asc rows
sorted_models_example =
    sorted_models_lem any_order whole_numbers any_order-IsOrder whole_numbers-IsFiniteOrder
      by_latency model_stats
