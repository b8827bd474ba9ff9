-- ===== src/Usage/Latency/Laws.antt =====
-- The parts of a duration add up to it, and the ones that are left out are smaller than the last shown.
use native.Mathlib.Nat.{le_trans}
use daili_usage_keeper_north.Base.{
  ℕ, ◌+◌, ◌*◌, ◌≤◌, ◌<◌, ◌≡◌, refl, false, List, [], ◌∷◌, filter, take, arith, Bool-cases, inl, inr,
  length, length-filter-add, ap, zero, suc, ltb→lt, lt→ltb, ◌∙◌,
}
use daili_usage_keeper_north.Usage.Latency.{
  DurationUnit, unit_d, unit_h, unit_m, unit_s, unit_ms, Part, parts_of, is_shown,
}

-- The length of a unit in seconds.
abbrev pub unit_seconds : DurationUnit → ℕ
unit_seconds unit_d = 86_400
unit_seconds unit_h = 3_600
unit_seconds unit_m = 60
unit_seconds unit_s = 1
unit_seconds unit_ms = 0

abbrev pub seconds_of : List Part → ℕ
seconds_of [] = 0
seconds_of (p ∷ ps) = p.value * unit_seconds p.unit + seconds_of ps

-- The unit of the last part of a list; a list without parts stands for everything.
abbrev pub last_unit : ℕ → List Part → ℕ
last_unit u [] = u
last_unit u (p ∷ ps) = last_unit (unit_seconds p.unit) ps

-- Each part is smaller than what the unit before it leaves room for.
abbrev pub Fits : ℕ → List Part → Type 0
Fits u [] = 0 < u
Fits u (p ∷ ps) =
    (unit_seconds p.unit ≤ u)
    × (p.value * unit_seconds p.unit + seconds_of ps < u)
    × Fits (unit_seconds p.unit) ps

absent : (p : Part) (ps : List Part) → is_shown p ≡ false → seconds_of ps ≡ seconds_of (p ∷ ps)
absent p ps e = ground (arith, ltb→lt 0 p.value, lt→ltb 0 p.value)

filter-Fits :
    (u v : ℕ) (ps : List Part)
    → u ≤ v
    → Fits u ps
    → Fits v (filter is_shown ps) × (seconds_of (filter is_shown ps) ≡ seconds_of ps)
filter-Fits u v [] h f = (omega arith, refl)
filter-Fits u v (p ∷ ps) h f = elim (Bool-cases (is_shown p)) [
  | inl e ↦
      let ih = filter-Fits (unit_seconds p.unit) (unit_seconds p.unit) ps (omega arith) f.2 in
      rw e ((omega arith, rw ih.1 (omega arith), ih.0), rw ih.1)
  | inr e ↦
      let ih = filter-Fits (unit_seconds p.unit) v ps (omega arith) f.2 in
      rw e (ih.0, ih.1 ∙ absent p ps e)
]

take-Fits :
    (n u : ℕ) (ps : List Part)
    → Fits u ps
    → (seconds_of (take n ps) ≤ seconds_of ps)
      × (seconds_of ps < seconds_of (take n ps) + last_unit u (take n ps))
take-Fits zero u [] f = omega arith
take-Fits zero u (p ∷ ps) f = omega arith
take-Fits (suc n) u [] f = omega arith
take-Fits (suc n) u (p ∷ ps) f = let ih = take-Fits n (unit_seconds p.unit) ps f.2 in omega arith

parts_of-Fits : (t : ℕ) → Fits (t + 86_401) (parts_of t)
unfolding parts_of
parts_of-Fits t = grind arith

parts_of-seconds : (t : ℕ) → seconds_of (parts_of t) ≡ t
unfolding parts_of
parts_of-seconds t = grind arith

last_unit-take :
    (n u v : ℕ) (ps : List Part)
    → 0 < n
    → 0 < seconds_of ps
    → last_unit u (take n ps) ≡ last_unit v (take n ps)
last_unit-take zero u v ps h k = omega arith
last_unit-take (suc n) u v [] h k = omega arith
last_unit-take (suc n) u v (p ∷ ps) h k = refl

take_all : (n : ℕ) (ps : List Part) → length ps ≤ n → take n ps ≡ ps
take_all zero [] h = refl
take_all zero (p ∷ ps) h = ground arith
take_all (suc n) [] h = refl
take_all (suc n) (p ∷ ps) h = ap (λ l. p ∷ l) (take_all n ps (omega arith))

shown_of_four : (t : ℕ) → length (filter is_shown (parts_of t)) ≤ 4
unfolding parts_of
shown_of_four t = omega (arith, length-filter-add is_shown (parts_of t))

-- If at least one part may be shown of a positive number of seconds, the parts that `formatDurationMs`
-- shows add up to at most these seconds, and to all of them but less than one unit of the last part
-- shown; if four may be shown they add up to all of them.
shown_parts_lem :
    (n t : ℕ)
    → 0 < n
    → 0 < t
    → let shown = take n (filter is_shown (parts_of t)) in
      (seconds_of shown ≤ t)
      × (t < seconds_of shown + last_unit 0 shown)
      × (4 ≤ n → seconds_of shown ≡ t)
shown_parts_lem n t h k =
    let (fits, whole) =
      filter-Fits (t + 86_401) (t + 86_401) (parts_of t) (omega arith) (parts_of-Fits t) in
    let (below, above) = take-Fits n (t + 86_401) (filter is_shown (parts_of t)) fits in
    let total = whole ∙ parts_of-seconds t in
    (
      omega arith,
      omega (arith, last_unit-take n (t + 86_401) 0 (filter is_shown (parts_of t)) h (omega arith)),
      λ m. rw (take_all n (filter is_shown (parts_of t)) (le_trans (shown_of_four t) m)) total,
    )
