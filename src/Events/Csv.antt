-- ===== src/Events/Csv.antt =====
-- The CSV export of web/src/components/usage/RequestEventsDetailsCard.tsx.
pub mod Formula
pub mod Laws
use Prim.Native.Char.{Char, code}
use Prim.Native.String
use daili_usage_keeper_north.Base.{
  ℕ, String, Bool, true, false, ◌||◌, Option, none, some, List, [], ◌∷◌, ◌++◌, map, if◌then◌else◌,
  trim_start, ◌<>◌, ◌==◌, decimal, ℤ, pos, negsuc, suc, or_else,
}
use daili_usage_keeper_north.Events.{Row, has_latency_data}

abbrev pub quote : Char
quote = "\""

-- `/^[=+\-@]/`
unfoldable pub is_formula : String → Bool
is_formula String.[] = false
is_formula (String.◌∷◌ c s) = code c == b'=' || code c == b'+' || code c == b'-' || code c == b'@'

unfoldable pub safe_text : String → String
safe_text text = if is_formula (trim_start text) then "'" <> text else text

-- `.replace(/"/g, '""')`
unfoldable pub double_quotes : String → String
double_quotes String.[] = ""
double_quotes (String.◌∷◌ c s) =
    if code c == b'"'
    then String.◌∷◌ quote (String.◌∷◌ quote (double_quotes s))
    else String.◌∷◌ c (double_quotes s)

unfoldable pub encode_csv : String → String
encode_csv text = "\"" <> double_quotes (safe_text text) <> "\""

-- `cells.join(separator)`
unfoldable pub join : String → List String → String
join separator [] = ""
join separator (s ∷ []) = s
join separator (s ∷ t ∷ rest) = s <> separator <> join separator (t ∷ rest)

-- `String(n)` for an integer.
unfoldable pub number_text : ℤ → String
unfolding decimal
number_text (pos n) = decimal n
number_text (negsuc n) = "-" <> decimal (suc n)

-- `hasLatencyData ? [row.latencyMs ?? ''] : []`
abbrev pub latency_cells : Bool → Option ℤ → List String
latency_cells false l = []
latency_cells true none = "" ∷ []
latency_cells true (some n) = number_text n ∷ []

unfoldable pub cells_of : Bool → Row → List String
unfolding number_text
cells_of with_latency row =
    row.timestamp
    ∷ row.model
    ∷ row.source
    ∷ row.source_raw
    ∷ row.auth_index
    ∷ (if row.failed then "failed" else "success")
    ∷ (latency_cells with_latency row.latency_ms
        ++ (number_text row.input_tokens
            ∷ number_text row.output_tokens
            ∷ number_text row.reasoning_tokens
            ∷ number_text row.cached_tokens
            ∷ number_text row.total_tokens
            ∷ []))

unfoldable pub header_of : Bool → List String
header_of with_latency =
    "timestamp"
    ∷ "model"
    ∷ "source"
    ∷ "source_raw"
    ∷ "auth_index"
    ∷ "result"
    ∷ ((if with_latency then "latency_ms" ∷ [] else [])
        ++ ("input_tokens" ∷ "output_tokens" ∷ "reasoning_tokens" ∷ "cached_tokens" ∷ "total_tokens"
            ∷ []))

unfoldable pub csv_row : List String → String
unfolding join
csv_row cells = join "," (map encode_csv cells)

-- `none` where there is nothing to export.
unfoldable pub export_csv : List Row → Option String
unfolding csv_row cells_of header_of
export_csv [] = none
export_csv (r ∷ rs) =
    let rows = r ∷ rs in
    let with_latency = has_latency_data rows in
    some (
      join "\n"
        (join "," (header_of with_latency) ∷ map (λ r. csv_row (cells_of with_latency r)) rows))
