-- ===== src/Page/Dates/Text.antt =====
-- The regular expression `^(\d{4})-(\d{2})-(\d{2})$` of `parseCustomDateBoundary`, with the numbers of
-- its groups, and what it reads of a day that `toDateInputValue` wrote.
use Prim.Native.Char.{code}
use Prim.Native.String.{[], ◌∷◌}
use text.Mathlib.TextLemmas.{nil-append, cons-append}
use daili_usage_keeper_north.Base.{
  ℕ, zero, suc, ◌+◌, ◌-◌, ◌*◌, String, Bool, true, false, ◌&&◌, Option, none, some, if◌then◌else◌,
  leb, ◌==◌, ◌≡◌, ◌≤◌, ◌<◌, ◌/◌, ◌%◌, digit, decimal, pad, arith, refl, ◌∙◌, ap, ap₂, decimal-short,
  decimal-long, code-digit, ◌<>◌, inl, inr, Bool-cases, ltb, ◌>>=◌,
}

abbrev is_digit : ℕ → Bool
is_digit c = leb 48 c && leb c 57

-- `\d{n}`, with the number so far, and the rest of the text.
unfoldable pub read_digits : ℕ → ℕ → String → Option (ℕ × String)
read_digits zero value s = some (value, s)
read_digits (suc n) value [] = none
read_digits (suc n) value (c ∷ s) =
    if is_digit (code c) then read_digits n (value * 10 + (code c - 48)) s else none

abbrev pub read_dash : String → Option String
read_dash [] = none
read_dash (c ∷ s) = if code c == 45 then some s else none

abbrev pub at_end : ℕ × ℕ × ℕ → String → Option (ℕ × ℕ × ℕ)
at_end day [] = some day
at_end day (c ∷ s) = none

unfoldable pub match_date : String → Option (ℕ × ℕ × ℕ)
unfolding read_digits
match_date s = do
  (y, s1) ← read_digits 4 0 s
  s2 ← read_dash s1
  (m, s3) ← read_digits 2 0 s2
  s4 ← read_dash s3
  (d, s5) ← read_digits 2 0 s4
  at_end (y, m, d) s5

-- A digit is read back.
read_digits-digit :
    (n v k : ℕ) (s : String)
    → k < 10
    → read_digits (suc n) v (digit k ∷ s) ≡ read_digits n (v * 10 + k) s
unfolding read_digits
read_digits-digit n v k s h =
    let e : is_digit (48 + k) ≡ true = ground arith in
    rw (code-digit k h, e) (ap (λ i. read_digits n (v * 10 + i) s) (omega arith))

module _ (v k l : ℕ) (s : String) (hk : k < 10) (hl : l < 10) where
  read_two : read_digits 2 v (digit k ∷ digit l ∷ s) ≡ some ((v * 10 + k) * 10 + l, s)
  unfolding read_digits
  read_two = read_digits-digit 1 v k (digit l ∷ s) hk ∙ read_digits-digit 0 (v * 10 + k) l s hl

pad-short : (n : ℕ) → ltb n 10 ≡ true → pad n ≡ "0" <> decimal n
unfolding pad
pad-short n e = rw e refl

pad-long : (n : ℕ) → ltb n 10 ≡ false → pad n ≡ decimal n
unfolding pad
pad-long n e = rw e refl

two_digits : (a b c d : ℕ) → a ≡ c → b ≡ d → digit a ∷ digit b ∷ [] ≡ digit c ∷ digit d ∷ []
two_digits a b c d h k = ap₂ (λ i j. digit i ∷ digit j ∷ []) h k

zero_digit : "0" ≡ digit 0 ∷ []
unfolding digit
zero_digit = refl

pad-digits : (n : ℕ) → n < 100 → pad n ≡ digit (n / 10) ∷ digit (n % 10) ∷ []
pad-digits n h = elim (Bool-cases (ltb n 10)) [
  | inl e ↦
      pad-short n e
      ∙ ap₂ (λ a b. a <> b) zero_digit (decimal-short n (ground arith))
      ∙ (simp (cons-append, nil-append))
      ∙ two_digits 0 n (n / 10) (n % 10) (ground arith) (ground arith)
  | inr e ↦
      pad-long n e
      ∙ decimal-long n (ground arith)
      ∙ ap (λ s. s <> (digit (n % 10) ∷ [])) (decimal-short (n / 10) (ground arith))
      ∙ simp (cons-append, nil-append)
]

year-digits :
    (y : ℕ)
    → 1000 ≤ y
    → y < 10_000
    → decimal y
      ≡ digit (y / 10 / 10 / 10)
        ∷ digit (y / 10 / 10 % 10)
        ∷ digit (y / 10 % 10)
        ∷ digit (y % 10)
        ∷ []
year-digits y l h =
    decimal-long y (omega arith)
    ∙ ap (λ s. s <> (digit (y % 10) ∷ []))
        (decimal-long (y / 10) (omega arith)
          ∙ ap (λ s. s <> (digit (y / 10 % 10) ∷ []))
              (decimal-long (y / 10 / 10) (omega arith)
                ∙ ap (λ s. s <> (digit (y / 10 / 10 % 10) ∷ []))
                    (decimal-short (y / 10 / 10 / 10) (omega arith))))
    ∙ simp (cons-append, nil-append)

read_year :
    (y : ℕ) (s : String) → 1000 ≤ y → y < 10_000 → read_digits 4 0 (decimal y <> s) ≡ some (y, s)
read_year y s l h =
    rw (year-digits y l h, cons-append, cons-append, cons-append, cons-append, nil-append)
      (read_digits-digit 3 0 (y / 10 / 10 / 10) _ (omega arith)
        ∙ read_digits-digit 2 _ (y / 10 / 10 % 10) _ (omega arith)
        ∙ read_two _ (y / 10 % 10) (y % 10) s (omega arith) (omega arith)
        ∙ ap (λ v. some (v, s)) (omega arith))

read_pad : (n : ℕ) (s : String) → n < 100 → read_digits 2 0 (pad n <> s) ≡ some (n, s)
read_pad n s h =
    rw (pad-digits n h, cons-append, cons-append, nil-append)
      (read_two 0 (n / 10) (n % 10) s (omega arith) (omega arith)
        ∙ ap (λ v. some (v, s)) (omega arith))

read_last_pad : (n : ℕ) → n < 100 → read_digits 2 0 (pad n) ≡ some (n, [])
read_last_pad n h = rw (pad-digits n h) (
    read_two 0 (n / 10) (n % 10) [] (omega arith) (omega arith)
    ∙ ap (λ v. some (v, [])) (omega arith))

read_dash_lem : (s : String) → read_dash ("-" <> s) ≡ some s
read_dash_lem s = rw (cons-append, nil-append) refl

-- What is written as a date is read as that day.
pub match_date-text :
    (y m d : ℕ)
    → 1000 ≤ y
    → y < 10_000
    → m < 100
    → d < 100
    → match_date (decimal y <> ("-" <> (pad m <> ("-" <> pad d)))) ≡ some (y, m, d)
unfolding match_date
match_date-text y m d l h hm hd =
    rw
      (
        read_year y ("-" <> (pad m <> ("-" <> pad d))) l h,
        read_dash_lem (pad m <> ("-" <> pad d)),
        read_pad m ("-" <> pad d) hm,
        read_dash_lem (pad d),
        read_last_pad d hd,
      )
      refl
