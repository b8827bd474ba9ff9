-- ===== src/Events/Csv/Laws.antt =====
-- Reading an exported line back, and the guard against formulas.
use Prim.Native.Char.{Char, code}
use text.Mathlib.TextLemmas.{nil-append, cons-append, append_assoc}
use text.Mathlib.TextEquality.{Char-path}
use daili_usage_keeper_north.Base.{
  ℕ, zero, suc, ◌≡◌, refl, ap, sym, String, Bool, false, Option, none, some, List, [], ◌∷◌, map,
  if◌then◌else◌, trim_start, ◌<>◌, ◌==◌, length, Bool-cases, inl, inr, ==_iff,
}
use daili_usage_keeper_north.Events.Csv.Formula.{
  IsRisky, is_formula→IsRisky, not-IsRisky, is_formula-apostrophe,
}
use daili_usage_keeper_north.Events.Csv.{
  quote, is_formula, safe_text, double_quotes, encode_csv, join, csv_row,
}

abbrev prepend : Char → Option (String × String) → Option (String × String)
prepend c none = none
prepend c (some (s, rest)) = some (String.◌∷◌ c s, rest)

-- The text of a quoted cell after its opening quote, and what follows the cell, by RFC 4180: two quotes
-- stand for one, and a single quote ends the cell.
unfoldable pub read_quoted : String → Option (String × String)
read_quoted String.[] = none
read_quoted (String.◌∷◌ c String.[]) = if code c == b'"' then some ("", "") else none
read_quoted (String.◌∷◌ c (String.◌∷◌ d s)) =
    if code c == b'"'
    then if code d == b'"' then prepend quote (read_quoted s) else some ("", String.◌∷◌ d s)
    else prepend c (read_quoted (String.◌∷◌ d s))

-- Whether a text starts with a quote.
abbrev pub is_quoted : String → Bool
is_quoted String.[] = false
is_quoted (String.◌∷◌ c s) = code c == b'"'

read_quoted-close :
    (rest : String) → is_quoted rest ≡ false → read_quoted (String.◌∷◌ quote rest) ≡ some ("", rest)
unfolding read_quoted
read_quoted-close String.[] h = refl
read_quoted-close (String.◌∷◌ c s) h = rw h

read_quoted-plain :
    (c : Char) (x : String)
    → (code c == b'"') ≡ false
    → read_quoted (String.◌∷◌ c x) ≡ prepend c (read_quoted x)
unfolding read_quoted
read_quoted-plain c String.[] h = rw h
read_quoted-plain c (String.◌∷◌ d x) h = rw h

read_quoted-doubled :
    (x : String)
    → read_quoted (String.◌∷◌ quote (String.◌∷◌ quote x)) ≡ prepend quote (read_quoted x)
unfolding read_quoted
read_quoted-doubled x = refl

read_quoted-double_quotes :
    (t rest : String)
    → is_quoted rest ≡ false
    → read_quoted (double_quotes t <> String.◌∷◌ quote rest) ≡ some (t, rest)
unfolding double_quotes
read_quoted-double_quotes String.[] rest h = rw nil-append (read_quoted-close rest h)
read_quoted-double_quotes (String.◌∷◌ c s) rest h = elim (Bool-cases (code c == b'"')) [
  | inl e ↦
      rw (e, cons-append, cons-append, read_quoted-doubled, read_quoted-double_quotes s rest h)
        (ap (λ q. some (String.◌∷◌ q s, rest)) (Char-path quote c (sym ((==_iff _ _).0 e))))
  | inr e ↦ rw (e, cons-append, read_quoted-plain c _ e, read_quoted-double_quotes s rest h)
]

-- A whole cell: its opening quote, and the rest by `read_quoted`.
unfoldable pub read_cell : String → Option (String × String)
unfolding read_quoted
read_cell String.[] = none
read_cell (String.◌∷◌ c s) = if code c == b'"' then read_quoted s else none

read_cell-encode_csv :
    (t rest : String)
    → is_quoted rest ≡ false
    → read_cell (encode_csv t <> rest) ≡ some (safe_text t, rest)
unfolding read_cell encode_csv
read_cell-encode_csv t rest h =
    rw (cons-append, nil-append, cons-append, append_assoc, cons-append, nil-append)
      (read_quoted-double_quotes (safe_text t) rest h)

-- So many cells with a comma between them, and what follows the last.
unfoldable pub read_cells : ℕ → String → Option (List String × String)
unfolding read_cell
read_cells zero s = some ([], s)
read_cells (suc zero) s = elim (read_cell s) [ none ↦ none | some (t, rest) ↦ some (t ∷ [], rest) ]
read_cells (suc (suc n)) s = elim (read_cell s) [
  | none ↦ none
  | some (t, rest) ↦ elim rest [
    | String.[] ↦ none
    | String.◌∷◌ c more ↦
        let others = read_cells (suc n) more in
        if code c == b','
        then elim others [ none ↦ none | some (ts, end) ↦ some (t ∷ ts, end) ]
        else none
  ]
]

comma_append : (s rest : String) → ("," <> s) <> rest ≡ String.◌∷◌ "," (s <> rest)
comma_append s rest = rw (cons-append, nil-append, cons-append)

-- A line of the export, read by the rules of RFC 4180, gives back its cells, each as `safe_text` has
-- made it, and leaves what follows the line, provided that this does not start with a quote.
pub read_cells-csv_row :
    (cells : List String) (rest : String)
    → is_quoted rest ≡ false
    → read_cells (length cells) (csv_row cells <> rest) ≡ some (map safe_text cells, rest)
unfolding read_cells csv_row
read_cells-csv_row [] rest h = rw nil-append
read_cells-csv_row (t ∷ []) rest h = rw (read_cell-encode_csv t rest h, read_cells)
read_cells-csv_row (t ∷ u ∷ cells) rest h = rw (
  append_assoc,
  comma_append (join "," (map encode_csv (u ∷ cells))) rest,
  read_cell-encode_csv t (String.◌∷◌ "," (join "," (map encode_csv (u ∷ cells)) <> rest)) refl,
  read_cells,
  read_cells-csv_row (u ∷ cells) rest h,
)

-- Whatever text a cell holds, the exported text is not some spaces, or none, with one of `=`, `+`, `-` and
-- `@` after them, by which a spreadsheet reads a formula; a text that is so is exported with an apostrophe
-- before it, and any other as it is.
pub safe_text-guards :
    (t : String)
    → (¬ IsRisky (safe_text t))
      × (IsRisky t → safe_text t ≡ "'" <> t)
      × (¬ IsRisky t → safe_text t ≡ t)
unfolding safe_text
safe_text-guards t = elim (Bool-cases (is_formula (trim_start t))) [
  | inl e ↦ rw e (
    not-IsRisky ("'" <> t) (is_formula-apostrophe t),
    (λ k. refl),
    (λ k. absurd (k (is_formula→IsRisky t e))),
  )
  | inr e ↦ rw e (not-IsRisky t e, (λ k. absurd (not-IsRisky t e k)), (λ k. refl))
]
