-- ===== src/Base/Text.antt =====
-- Strings: the methods of `String.prototype` that the code calls.
use Prim.Native.Nat.{ℕ, zero, suc, ◌+◌, ◌≤◌, ◌/◌, ◌%◌, ◌<◌}
use Prim.Native.Char.{Char, code}
use Prim.Native.String
use Prim.Native.String.{String, [], ◌∷◌, char_at}
use mathlib.Core.Bool.{Bool, true, false, ◌&&◌, ◌||◌}
use mathlib.Core.Path.{◌≡◌, refl, sym, ap, ◌∙◌}
use mathlib.Core.Logic.{◌↔◌, inl, inr}
use native.Mathlib.Omega.{arith}
use mathlib.Core.Option.{Option, none, some}
use text.Mathlib.Text.{◌==◌ as text_eq}
use text.Mathlib.TextEquality
use daili_usage_keeper_north.Base.Tests.{Bool-cases, ltb, leb, ◌==◌, if◌then◌else◌}

-- `a === b` on strings.
abbrev pub str_eq : String → String → Bool
str_eq a b = text_eq a b

pub eq_iff : (a b : String) → (str_eq a b ≡ true) ↔ (a ≡ b)
eq_iff a b = TextEquality.eq_iff a b

-- Concatenation, and template literals.
infixr 65 ◌<>◌
abbrev pub ◌<>◌ : String → String → String
a <> b = String.◌++◌ a b

-- A string is falsy when it is empty.
abbrev pub is_blank : String → Bool
is_blank [] = true
is_blank (c ∷ s) = false

-- `s || d`
abbrev pub text_or : String → String → String
text_or [] d = d
text_or (c ∷ s) d = c ∷ s

-- `o || d` where `o` may be undefined.
abbrev pub optional_text_or : Option String → String → String
optional_text_or none d = d
optional_text_or (some s) d = text_or s d

-- WhiteSpace and LineTerminator of ECMAScript, which `trim` and `\s` share.
unfoldable pub is_space : ℕ → Bool
is_space c =
    leb 9 c && leb c 13
    || c == 32
    || c == 160
    || c == 0x1680
    || leb 0x2000 c && leb c 0x200a
    || c == 0x2028
    || c == 0x2029
    || c == 0x202f
    || c == 0x205f
    || c == 0x3000
    || c == 0xfeff

unfoldable pub trim_start : String → String
unfolding is_space
trim_start [] = []
trim_start (c ∷ s) = if is_space (code c) then trim_start s else c ∷ s

unfoldable pub trim_end : String → String
unfolding is_space
trim_end [] = []
trim_end (c ∷ s) =
    let rest = trim_end s in if is_blank rest && is_space (code c) then [] else c ∷ rest

unfoldable pub trim : String → String
unfolding trim_start trim_end
trim s = trim_end (trim_start s)

-- `s.startsWith(p)`
unfoldable pub starts_with : String → String → Bool
starts_with s [] = true
starts_with [] (d ∷ p) = false
starts_with (c ∷ s) (d ∷ p) = if code c == code d then starts_with s p else false

unfoldable pub digit : ℕ → Char
digit d = char_at "0123456789" d

decimal_from : ℕ → ℕ → String
unfolding digit
decimal_from zero n = []
decimal_from (suc fuel) n =
    let more = decimal_from fuel (n / 10) in
    if ltb n 10 then digit n ∷ [] else more <> (digit (n % 10) ∷ [])

-- `String(n)` for a number that is a natural: every division by ten lowers it, so the fuel is enough.
unfoldable pub decimal : ℕ → String
unfolding decimal_from
decimal n = decimal_from (n + 1) n

-- `String(n).padStart(2, '0')`
unfoldable pub pad : ℕ → String
unfolding decimal
pad n = if ltb n 10 then "0" <> decimal n else decimal n

tenth : (n f : ℕ) → ltb n 10 ≡ false → n < suc f → n / 10 < f
tenth n f e h = ground arith

-- Any fuel above the number gives the same digits.
decimal_from_lem : (f g n : ℕ) → n < f → n < g → decimal_from f n ≡ decimal_from g n
unfolding decimal_from
decimal_from_lem zero g n h k = ground arith
decimal_from_lem (suc f) zero n h k = ground arith
decimal_from_lem (suc f) (suc g) n h k = elim (Bool-cases (ltb n 10)) [
  | inl e ↦ rw e
  | inr e ↦ rw (e, decimal_from_lem f g (n / 10) (tenth n f e h) (tenth n g e k))
]

decimal_lem : (fuel n : ℕ) → n < fuel → decimal_from fuel n ≡ decimal n
unfolding decimal
decimal_lem fuel n h = decimal_from_lem fuel (n + 1) n h (omega arith)

one_digit : (f n : ℕ) → ltb n 10 ≡ true → decimal_from (suc f) n ≡ digit n ∷ []
unfolding decimal_from
one_digit f n e = rw e refl

last_digit :
    (f n : ℕ)
    → ltb n 10 ≡ false
    → decimal_from (suc f) n ≡ decimal_from f (n / 10) <> (digit (n % 10) ∷ [])
unfolding decimal_from
last_digit f n e = rw e refl

pub decimal-short : (n : ℕ) → n < 10 → decimal n ≡ digit n ∷ []
decimal-short n h = sym (decimal_lem (suc n) n (omega arith)) ∙ one_digit n n (ground arith)

pub decimal-long : (n : ℕ) → 10 ≤ n → decimal n ≡ decimal (n / 10) <> (digit (n % 10) ∷ [])
decimal-long n h =
    sym (decimal_lem (suc n) n (omega arith))
    ∙ last_digit n n (ground arith)
    ∙ ap (λ s. s <> (digit (n % 10) ∷ [])) (decimal_lem n (n / 10) (omega arith))

-- The code of a digit.
pub code-digit : (k : ℕ) → k < 10 → code (digit k) ≡ 48 + k
unfolding digit
code-digit zero h = refl
code-digit (suc zero) h = refl
code-digit (suc (suc zero)) h = refl
code-digit (suc (suc (suc zero))) h = refl
code-digit (suc (suc (suc (suc zero)))) h = refl
code-digit (suc (suc (suc (suc (suc zero))))) h = refl
code-digit (suc (suc (suc (suc (suc (suc zero)))))) h = refl
code-digit (suc (suc (suc (suc (suc (suc (suc zero))))))) h = refl
code-digit (suc (suc (suc (suc (suc (suc (suc (suc zero)))))))) h = refl
code-digit (suc (suc (suc (suc (suc (suc (suc (suc (suc zero))))))))) h = refl
code-digit (suc (suc (suc (suc (suc (suc (suc (suc (suc (suc k)))))))))) h = omega arith
