-- ===== src/Cards/Tables/Expanded.antt =====
-- Which rows of the table of ApiDetailsCard.tsx are unfolded after clicks on them.
use daili_usage_keeper_north.Base.{
  String, Bool, true, false, not, List, [], ◌∷◌, ◌++◌, foldl, filter, ◌≡◌, refl, ap, sym, ◌∙◌,
  arith, inl, inr, Bool-cases, str_eq, eq_iff, if◌then◌else◌,
}
use daili_usage_keeper_north.Cards.Tables.{is_expanded, toggle_expand}

-- A click on a row turns its own state round.
abbrev pub click_turns : String → Bool → String → Bool
click_turns endpoint b clicked = if str_eq clicked endpoint then not b else b

same_left : (a b c : String) → str_eq a b ≡ true → str_eq a c ≡ str_eq b c
same_left a b c e = ap (λ x. str_eq x c) ((eq_iff a b).0 e)

same_expanded :
    (a b : String) (xs : List String) → str_eq a b ≡ true → is_expanded xs a ≡ is_expanded xs b
same_expanded a b xs e = ap (is_expanded xs) ((eq_iff a b).0 e)

not_both :
    (x clicked endpoint : String)
    → str_eq x clicked ≡ false
    → str_eq x endpoint ≡ true
    → str_eq clicked endpoint ≡ false
not_both x clicked endpoint d e =
    let at_endpoint = (eq_iff x endpoint).0 e in
    let back = (eq_iff clicked endpoint).0 in
    elim (Bool-cases (str_eq clicked endpoint)) [
      | inl f ↦
          let same : str_eq x clicked ≡ true = (eq_iff x clicked).1 (at_endpoint ∙ sym (back f)) in
          cc
      | inr f ↦ f
    ]

is_expanded-filter :
    (clicked endpoint : String) (xs : List String)
    → is_expanded (filter (λ e. not (str_eq e clicked)) xs) endpoint
      ≡ (if str_eq clicked endpoint then false else is_expanded xs endpoint)
is_expanded-filter clicked endpoint [] = elim (Bool-cases (str_eq clicked endpoint)) [
  | inl e ↦ rw e refl
  | inr e ↦ rw e refl
]
is_expanded-filter clicked endpoint (x ∷ xs) =
    let rest = is_expanded-filter clicked endpoint xs in
    elim (Bool-cases (str_eq x clicked)) [
      | inl d ↦ let same = same_left x clicked endpoint d in ground (arith, rest, same)
      | inr d ↦ elim (Bool-cases (str_eq x endpoint)) [
        | inl e ↦ let other = not_both x clicked endpoint d e in ground arith
        | inr e ↦ ground (arith, rest)
      ]
    ]

is_expanded-append :
    (clicked endpoint : String) (xs : List String)
    → is_expanded (xs ++ clicked ∷ []) endpoint
      ≡ (if str_eq clicked endpoint then true else is_expanded xs endpoint)
is_expanded-append clicked endpoint [] = refl
is_expanded-append clicked endpoint (x ∷ xs) =
    let rest = is_expanded-append clicked endpoint xs in
    elim (Bool-cases (str_eq x endpoint)) [
      | inl e ↦ ground (arith, rest)
      | inr e ↦ ground (arith, rest)
    ]

toggle_expand-turns :
    (clicked endpoint : String) (xs : List String)
    → is_expanded (toggle_expand clicked xs) endpoint
      ≡ click_turns endpoint (is_expanded xs endpoint) clicked
unfolding toggle_expand
toggle_expand-turns clicked endpoint xs =
    let dropped = is_expanded-filter clicked endpoint xs in
    let added = is_expanded-append clicked endpoint xs in
    elim (Bool-cases (str_eq clicked endpoint)) [
      | inl e ↦ let same = same_expanded clicked endpoint xs e in ground (arith, dropped, added)
      | inr e ↦ ground (arith, dropped, added)
    ]

-- After any clicks on the rows of a table whose rows were all folded, a row is unfolded exactly when the
-- clicks on it alone, each of which turns it round, leave it so.
pub expanded-clicks :
    (endpoint : String) (xs clicks : List String)
    → is_expanded (foldl (λ e c. toggle_expand c e) xs clicks) endpoint
      ≡ foldl (click_turns endpoint) (is_expanded xs endpoint) clicks
expanded-clicks endpoint xs [] = refl
expanded-clicks endpoint xs (c ∷ clicks) =
    expanded-clicks endpoint (toggle_expand c xs) clicks
    ∙ ap (λ b. foldl (click_turns endpoint) b clicks) (toggle_expand-turns c endpoint xs)
