-- ===== src/Events/Csv/Formula.antt =====
-- The texts that a spreadsheet reads as formulas, and the test of `encodeCsv` for them.
use Prim.Native.Char.{Char, code}
use text.Mathlib.TextLemmas.{nil-append, cons-append}
use text.Mathlib.TextEquality.{Char-path}
use daili_usage_keeper_north.Base.{
  ◌≡◌, refl, ap, ◌∙◌, ◌⊎◌, String, true, false, trim_start, is_space, arith, ◌<>◌, ◌==◌, Bool-cases,
  inl, inr, ==_iff,
}
use daili_usage_keeper_north.Events.Csv.{is_formula}

-- A text that a spreadsheet reads as a formula: it starts with one of four characters.
abbrev pub IsFormula : String → Type 0
IsFormula text =
    (rest : String) × ((text ≡ String.◌∷◌ "=" rest)
      ⊎ (text ≡ String.◌∷◌ "+" rest)
      ⊎ (text ≡ String.◌∷◌ "-" rest)
      ⊎ (text ≡ String.◌∷◌ "@" rest))

starts_with_char :
    (c d : Char) (s : String) → (code c == code d) ≡ true → String.◌∷◌ c s ≡ String.◌∷◌ d s
starts_with_char c d s e = ap (λ q. String.◌∷◌ q s) (Char-path c d ((==_iff _ _).0 e))

is_formula→IsFormula : (t : String) → is_formula t ≡ true → IsFormula t
unfolding is_formula
is_formula→IsFormula String.[] h = cc
is_formula→IsFormula (String.◌∷◌ c s) h = elim (Bool-cases (code c == b'=')) [
  | inl e ↦ (s, inl (starts_with_char c "=" s e))
  | inr e ↦ elim (Bool-cases (code c == b'+')) [
    | inl f ↦ (s, inr (inl (starts_with_char c "+" s f)))
    | inr f ↦ elim (Bool-cases (code c == b'-')) [
      | inl g ↦ (s, inr (inr (inl (starts_with_char c "-" s g))))
      | inr g ↦
          let last : (code c == b'@') ≡ true = ground (arith, h) in
          (s, inr (inr (inr (starts_with_char c "@" s last))))
    ]
  ]
]

IsFormula→is_formula : (t : String) → IsFormula t → is_formula t ≡ true
unfolding is_formula
IsFormula→is_formula t (rest, inl e) = rw e refl
IsFormula→is_formula t (rest, inr (inl e)) = rw e refl
IsFormula→is_formula t (rest, inr (inr (inl e))) = rw e refl
IsFormula→is_formula t (rest, inr (inr (inr e))) = rw e refl

abbrev pub IsSpaces : String → Type 0
IsSpaces String.[] = Unit
IsSpaces (String.◌∷◌ c s) = (is_space (code c) ≡ true) × IsSpaces s

-- A formula, after any spaces.
abbrev pub IsRisky : String → Type 0
IsRisky text = (spaces rest : String) × IsSpaces spaces × IsFormula rest × (text ≡ spaces <> rest)

trim_start-spaces :
    (spaces rest : String) → IsSpaces spaces → trim_start (spaces <> rest) ≡ trim_start rest
unfolding trim_start
trim_start-spaces String.[] rest h = rw nil-append
trim_start-spaces (String.◌∷◌ c s) rest h = rw (cons-append, h.0) (trim_start-spaces s rest h.1)

trim_start-IsFormula : (t : String) → IsFormula t → trim_start t ≡ t
unfolding trim_start is_space
trim_start-IsFormula t (rest, inl e) = rw e refl
trim_start-IsFormula t (rest, inr (inl e)) = rw e refl
trim_start-IsFormula t (rest, inr (inr (inl e))) = rw e refl
trim_start-IsFormula t (rest, inr (inr (inr e))) = rw e refl

leading-IsSpaces : (t : String) → (spaces : String) × IsSpaces spaces × (t ≡ spaces <> trim_start t)
unfolding trim_start
leading-IsSpaces String.[] = ("", tt, refl)
leading-IsSpaces (String.◌∷◌ c s) = elim (Bool-cases (is_space (code c))) [
  | inl e ↦
      let (spaces, blank, eq) = leading-IsSpaces s in
      rw e (String.◌∷◌ c spaces, (e, blank), rw cons-append (ap (λ r. String.◌∷◌ c r) eq))
  | inr e ↦ rw e ("", tt, rw nil-append)
]

IsRisky→is_formula : (t : String) → IsRisky t → is_formula (trim_start t) ≡ true
IsRisky→is_formula t (spaces, rest, blank, formula, e) =
    ap (λ u. is_formula (trim_start u)) e
    ∙ ap is_formula (trim_start-spaces spaces rest blank ∙ trim_start-IsFormula rest formula)
    ∙ IsFormula→is_formula rest formula

pub is_formula→IsRisky : (t : String) → is_formula (trim_start t) ≡ true → IsRisky t
is_formula→IsRisky t e =
    let (spaces, blank, eq) = leading-IsSpaces t in
    (spaces, trim_start t, blank, is_formula→IsFormula (trim_start t) e, eq)

pub not-IsRisky : (t : String) → is_formula (trim_start t) ≡ false → ¬ IsRisky t
not-IsRisky t e k = let f = IsRisky→is_formula t k in cc

pub is_formula-apostrophe : (t : String) → is_formula (trim_start ("'" <> t)) ≡ false
unfolding is_formula trim_start
is_formula-apostrophe t = rw cons-append
