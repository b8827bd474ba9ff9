-- ===== src/Events/Tests.antt =====
-- The theorems about the table of events at concrete inputs.
use daili_usage_keeper_north.Base.{◌≡◌, refl, String, some, List, [], ◌∷◌, map, length, ◌<>◌}
use daili_usage_keeper_north.Events.Csv.{safe_text, csv_row}
use daili_usage_keeper_north.Events.Csv.Formula.{IsRisky}
use daili_usage_keeper_north.Events.Csv.Laws.{read_cells, read_cells-csv_row, safe_text-guards}

abbrev cells : List String
cells = "=1+1" ∷ "say \"hi\"" ∷ "a,b" ∷ []

read_cells-csv_row_example :
    read_cells (length cells) (csv_row cells <> "\nnext") ≡ some (map safe_text cells, "\nnext")
read_cells-csv_row_example = read_cells-csv_row cells "\nnext" refl

safe_text-guards_example :
    (¬ IsRisky (safe_text " =1"))
    × (IsRisky " =1" → safe_text " =1" ≡ "'" <> " =1")
    × (¬ IsRisky " =1" → safe_text " =1" ≡ " =1")
safe_text-guards_example = safe_text-guards " =1"
