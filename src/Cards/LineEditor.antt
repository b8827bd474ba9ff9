-- ===== src/Cards/LineEditor.antt =====
-- The buttons of web/src/components/usage/ChartLineSelector.tsx. A handler returns the lines that it
-- calls `onChange` with, if it calls it.
pub mod Laws
use daili_usage_keeper_north.Base.{
  ℕ, zero, suc, String, Bool, true, false, not, Option, none, some, List, [], ◌∷◌, ◌++◌, length,
  leb, if◌then◌else◌, is_blank, str_eq, any,
}

-- `chartLines.includes(m)`
abbrev pub has_line : List String → String → Bool
has_line lines m = any (λ l. str_eq l m) lines

-- `modelNames.find((m) => !chartLines.includes(m))`
abbrev pub unused_model : List String → List String → Option String
unused_model lines [] = none
unused_model lines (m ∷ models) = if has_line lines m then unused_model lines models else some m

abbrev pub model_or_all : Option String → String
model_or_all none = "all"
model_or_all (some m) = if is_blank m then "all" else m

unfoldable pub handle_add : ℕ → List String → List String → Option (List String)
handle_add max_lines model_names lines =
    if leb max_lines (length lines)
    then none
    else some (lines ++ model_or_all (unused_model lines model_names) ∷ [])

-- `newLines.splice(index, 1)`
abbrev pub remove_line : ℕ → List String → List String
remove_line i [] = []
remove_line zero (l ∷ lines) = lines
remove_line (suc i) (l ∷ lines) = l ∷ remove_line i lines

unfoldable pub handle_remove : ℕ → List String → Option (List String)
handle_remove index lines = if leb (length lines) 1 then none else some (remove_line index lines)

-- `newLines[index] = value`, at an index of the list.
abbrev pub replace_line : ℕ → String → List String → List String
replace_line i value [] = []
replace_line zero value (l ∷ lines) = value ∷ lines
replace_line (suc i) value (l ∷ lines) = l ∷ replace_line i value lines

unfoldable pub handle_change : ℕ → String → List String → Option (List String)
handle_change index value lines = some (replace_line index value lines)
