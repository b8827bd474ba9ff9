-- ===== src/Usage/Window/Laws.antt =====
-- What the window and the filter guarantee.
use mathlib.Core.List.{Perm}
use daili_usage_keeper_north.Base.{
  ◌≡◌, refl, ◌⊎◌, inl, inr, ◌↔◌, Bool-cases, Option-cases, true, false, Option, none, some, List,
  [], ◌∷◌, map, ℤ, pos, ◌-ℤ◌, ◌≤ℤ◌, leb_ℤ, ltb_ℤ, int_laws, filter, All, arith, is_empty, ℕ, ◌*◌,
  ◌≤◌, or_else,
}
use daili_usage_keeper_north.Host.{Host}
use daili_usage_keeper_north.Usage.{Payload, DetailRecord, time_of}
use daili_usage_keeper_north.Usage.Details.{collect_usage_details}
use daili_usage_keeper_north.Usage.Rebuild.RoundTrip.{core, rebuilt_core, collect-build-perm}
use daili_usage_keeper_north.Usage.Window.{
  TimeRange, all, hours_4, hours_8, hours_12, hours_24, today, days_7, custom, Minutes, of_ms,
  whole, UsageFilterWindow, no_window, at_least_a_minute, WindowOptions, Bounds, widen, bounds_from,
  get_detail_timestamp_bounds, window_of_range, resolve_usage_filter_window, in_window, is_open,
  filter_usage_by_window, to_valid_timestamp, window_between, window_preset, window_custom,
  window_all,
}

-- A row counts if its time is known, that is, positive.
abbrev pub IsDated : DetailRecord → Type 0
IsDated d = pos 1 ≤ℤ time_of d

abbrev pub IsWithin : ℤ → ℤ → DetailRecord → Type 0
IsWithin e l d = IsDated d → (e ≤ℤ time_of d) × (time_of d ≤ℤ l)

abbrev pub Covers : Option Bounds → List DetailRecord → Type 0
Covers none ds = All (λ d. ¬ IsDated d) ds
Covers (some (e, l)) ds = All (IsWithin e l) ds

-- The bounds only widen.
abbrev IsWider : Option Bounds → Option Bounds → Type 0
IsWider none b = Unit
IsWider (some (e, l)) none = ⊥
IsWider (some (e, l)) (some (e', l')) = (e' ≤ℤ e) × (l ≤ℤ l')

abbrev pub IsSpan : Option Bounds → Type 0
IsSpan none = Unit
IsSpan (some (e, l)) = (pos 1 ≤ℤ e) × (e ≤ℤ l)

IsWider-trans : (a b c : Option Bounds) → IsWider a b → IsWider b c → IsWider a c
IsWider-trans none b c h k = tt
IsWider-trans (some x) none c h k = absurd h
IsWider-trans (some x) (some y) none h k = absurd k
IsWider-trans (some (e, l)) (some (e', l')) (some (f, m)) h k = omega int_laws

widen_lem :
    (b : Option Bounds) (d : DetailRecord) → IsSpan b → IsWider b (widen b d) × IsSpan (widen b d)
unfolding widen
widen_lem none d h = ground arith
widen_lem (some (e, l)) d h = ground arith

widen-some :
    (b : Option Bounds) (d : DetailRecord)
    → IsDated d
    → IsWider (some (time_of d, time_of d)) (widen b d)
unfolding widen
widen-some none d h = ground arith
widen-some (some (e, l)) d h = ground arith

bounds_from_lem :
    (b : Option Bounds) (ds : List DetailRecord)
    → IsSpan b
    → IsWider b (bounds_from b ds) × IsSpan (bounds_from b ds) × Covers (bounds_from b ds) ds
unfolding bounds_from
bounds_from_lem none [] h = (tt, tt, tt)
bounds_from_lem (some (e, l)) [] h = (omega int_laws, h, tt)
bounds_from_lem b (d ∷ ds) h =
    let (wide, span) = widen_lem b d h in
    let (wider, span', covers) = bounds_from_lem (widen b d) ds span in
    (
      IsWider-trans b (widen b d) _ wide wider,
      span',
      covers_cons (bounds_from (widen b d) ds) (widen-some b d) wider covers,
    )
  where
    covers_cons :
        (c : Option Bounds)
        → (IsDated d → IsWider (some (time_of d, time_of d)) (widen b d))
        → IsWider (widen b d) c
        → Covers c ds
        → Covers c (d ∷ ds)
    covers_cons none seen wider covers = (
      (λ dated. IsWider-trans (some (time_of d, time_of d)) (widen b d) none (seen dated) wider),
      covers,
    )
    covers_cons (some (e, l)) seen wider covers = (
      (λ dated.
          IsWider-trans (some (time_of d, time_of d)) (widen b d) (some (e, l)) (seen dated) wider),
      covers,
    )

-- The bounds of some rows are absent only if no row has a positive time. Otherwise the earliest is
-- positive and at most the latest, and every row with a positive time lies between them.
pub get_detail_timestamp_bounds_lem :
    (ds : List DetailRecord)
    → IsSpan (get_detail_timestamp_bounds ds) × Covers (get_detail_timestamp_bounds ds) ds
unfolding get_detail_timestamp_bounds
get_detail_timestamp_bounds_lem ds = let (w, s, c) = bounds_from_lem none ds tt in (s, c)

-- A window is either open at both ends, or it starts before it ends and lasts at least a minute.
abbrev LastsAMinute : Option Minutes → Type 0
LastsAMinute none = ⊥
LastsAMinute (some (of_ms ms)) = pos 60_000 ≤ℤ ms
LastsAMinute (some (whole n)) = 1 ≤ n

abbrev pub IsProper : UsageFilterWindow → Type 0
IsProper w =
    (w ≡ no_window)
    ⊎ ((start : ℤ) × (stop : ℤ) × (w.start_ms ≡ some start)
        × (w.end_ms ≡ some stop)
        × (start ≤ℤ stop)
        × LastsAMinute w.window_minutes)

at_least_a_minute-LastsAMinute : (ms : ℤ) → LastsAMinute (some (at_least_a_minute ms))
unfolding at_least_a_minute
at_least_a_minute-LastsAMinute ms = elim (Bool-cases (leb_ℤ (pos 60_000) ms)) [
  | inl e ↦ rw e (ground arith)
  | inr e ↦ rw e (ground arith)
]

window_between-IsProper : (start stop : ℤ) → start ≤ℤ stop → IsProper (window_between start stop)
window_between-IsProper start stop h =
    inr (start, stop, refl, refl, h, at_least_a_minute-LastsAMinute (stop -ℤ start))

window_all-IsProper : (b : Option Bounds) → IsSpan b → IsProper (window_all b)
window_all-IsProper none h = inl refl
window_all-IsProper (some (e, l)) h = window_between-IsProper e l h.1

window_custom-IsProper : (a b : Option ℤ) → IsProper (window_custom a b)
window_custom-IsProper none b = inl refl
window_custom-IsProper (some a) none = inl refl
window_custom-IsProper (some a) (some b) = elim (Bool-cases (ltb_ℤ b a)) [
  | inl e ↦ rw e (inl refl)
  | inr e ↦ rw e (window_between-IsProper a b (ground arith))
]

window_preset-IsProper : (now : ℤ) (hours : ℕ) → 1 ≤ hours → IsProper (window_preset now hours)
window_preset-IsProper now hours h =
    inr (now -ℤ pos (hours * 60 * 60 * 1000), now, refl, refl, omega int_laws, omega arith)

module _ (h : Host) (clock : ℤ) (midnight : ℤ → ℤ) (midnight_le : (t : ℤ) → midnight t ≤ℤ t) where
  window_of_range-IsProper :
      (b : Option Bounds) (range : TimeRange) (options : WindowOptions)
      → IsSpan b
      → IsProper (window_of_range h clock midnight b range options)
  unfolding window_of_range
  window_of_range-IsProper b all options s = window_all-IsProper b s
  window_of_range-IsProper b custom options s =
      window_custom-IsProper (to_valid_timestamp h options.custom_start)
        (to_valid_timestamp h options.custom_end)
  window_of_range-IsProper b today options s =
      let now = or_else (to_valid_timestamp h options.now_ms) clock in
      window_between-IsProper (midnight now) now (midnight_le now)
  window_of_range-IsProper b hours_4 options s = window_preset-IsProper _ 4 (omega arith)
  window_of_range-IsProper b hours_8 options s = window_preset-IsProper _ 8 (omega arith)
  window_of_range-IsProper b hours_12 options s = window_preset-IsProper _ 12 (omega arith)
  window_of_range-IsProper b hours_24 options s = window_preset-IsProper _ 24 (omega arith)
  window_of_range-IsProper b days_7 options s = window_preset-IsProper _ 168 (omega arith)

  -- For every range, payload and option the resolved window is either open at both ends, or it starts
  -- no later than it ends and its length in minutes is at least 1, provided that local midnight is
  -- never after the time whose day it starts.
  pub resolve_usage_filter_window-IsProper :
      (usage : Option Payload) (range : TimeRange) (options : WindowOptions)
      → IsProper (resolve_usage_filter_window h clock midnight usage range options)
  unfolding resolve_usage_filter_window
  resolve_usage_filter_window-IsProper usage range options =
      window_of_range-IsProper _ range options
        (get_detail_timestamp_bounds_lem (collect_usage_details h usage)).0

-- `undefined` bounds nothing.
abbrev AtLeast : Option ℤ → ℤ → Type 0
AtLeast none t = Unit
AtLeast (some start) t = start ≤ℤ t

abbrev AtMost : Option ℤ → ℤ → Type 0
AtMost none t = Unit
AtMost (some stop) t = t ≤ℤ stop

abbrev pub LiesIn : UsageFilterWindow → DetailRecord → Type 0
LiesIn w d = IsDated d × AtLeast w.start_ms (time_of d) × AtMost w.end_ms (time_of d)

in_window_iff : (w : UsageFilterWindow) (d : DetailRecord) → (in_window w d ≡ true) ↔ LiesIn w d
unfolding in_window
in_window_iff w d = elim (Option-cases w.start_ms) [
  | inl e ↦ elim (Option-cases w.end_ms) [
    | inl f ↦ rw (e, f) (ground arith)
    | inr (stop, f) ↦ rw (e, f) (ground arith)
  ]
  | inr (start, e) ↦ elim (Option-cases w.end_ms) [
    | inl f ↦ rw (e, f) (ground arith)
    | inr (stop, f) ↦ rw (e, f) (ground arith)
  ]
]

module _ (h : Host) where
  -- If the payload has rows and the window has an end, the filtered payload has just the rows in the
  -- window, up to order, each under its own API and model; a row is in the window exactly when its
  -- time is positive, not before the start and not after the end, where these are given.
  pub filter_usage_by_window_lem :
      (usage : Payload) (w : UsageFilterWindow)
      → is_empty (collect_usage_details h (some usage)) ≡ false
      → is_open w ≡ false
      → Perm
          (map core (collect_usage_details h (some (filter_usage_by_window h usage w))))
          (map rebuilt_core (filter (in_window w) (collect_usage_details h (some usage))))
        × ((d : DetailRecord) → (in_window w d ≡ true) ↔ LiesIn w d)
  unfolding filter_usage_by_window
  filter_usage_by_window_lem usage w rows closed = (
    rw (rows, closed)
        (collect-build-perm h (filter (in_window w) (collect_usage_details h (some usage)))),
    in_window_iff w,
  )
