-- ===== src/Page/Dates/Laws.antt =====
-- The custom range: days are written and read back, what is asked of the server is a proper range, and
-- a range that is loaded is one that can be asked for.
use Prim.Native.String.{[], ◌∷◌}
use daili_usage_keeper_north.Base.{
  ℕ, ◌≤◌, ◌<◌, ◌≡◌, refl, sym, ap, ◌∙◌, ◌↔◌, ◌⊎◌, inl, inr, String, Bool, true, false, Option, none,
  some, if◌then◌else◌, is_blank, ℤ, pos, ◌-ℤ◌, ◌≤ℤ◌, or_else, Bool-cases, arith, int_laws,
}
use daili_usage_keeper_north.Page.Dates.Text.{match_date, match_date-text}
use daili_usage_keeper_north.Page.Dates.{
  Calendar, Day, CustomRange, Query, same_day, checked, to_date_input_value,
  parse_custom_date_boundary, parse_custom_date_start, parse_custom_date_end, is_reversed, refuses,
  is_incomplete, no_query, build_custom_date_range_query, default_window_ms,
  build_default_custom_range, Saved, unreadable, parsed, load_custom_time_range,
  get_event_query_window,
}

-- A time and its day: the numbers of the day have the digits that the text has room for, and the day's
-- first and last milliseconds, which enclose the time, lie in it.
pub record IsDay (calendar : Calendar) (t : ℤ) : Type 0 where
  pub y : ℕ
  pub m : ℕ
  pub d : ℕ
  pub first : ℤ
  pub last : ℤ
  pub found : calendar.day_of t ≡ some (y, m, d)
  pub year_min : 1000 ≤ y
  pub year_max : y < 10_000
  pub month_max : m < 100
  pub day_max : d < 100
  pub first_of : calendar.boundary (y, m, d) false ≡ some first
  pub last_of : calendar.boundary (y, m, d) true ≡ some last
  pub first_in : calendar.day_of first ≡ some (y, m, d)
  pub last_in : calendar.day_of last ≡ some (y, m, d)
  pub after_first : first ≤ℤ t
  pub before_last : t ≤ℤ last

same_day_refl : (y m d : ℕ) → same_day (y, m, d) (y, m, d) ≡ true
same_day_refl y m d = ground arith

not_blank : (s : String) (day : Day) → match_date s ≡ some day → is_blank s ≡ false
unfolding match_date
not_blank [] day h = ground arith
not_blank (c ∷ s) day h = refl

boundary_read :
    (calendar : Calendar) (s : String) (y m d : ℕ) (e : Bool) (t : ℤ)
    → match_date s ≡ some (y, m, d)
    → calendar.boundary (y, m, d) e ≡ some t
    → calendar.day_of t ≡ some (y, m, d)
    → parse_custom_date_boundary calendar s e ≡ some t
unfolding parse_custom_date_boundary
boundary_read calendar s y m d e t h b k =
    rw (not_blank s (y, m, d) h, h, b, checked, k, same_day_refl y m d) refl

module _ (calendar : Calendar) (t : ℤ) (h : IsDay calendar t) where
  written : match_date (to_date_input_value calendar t) ≡ some (h.y, h.m, h.d)
  unfolding to_date_input_value
  written =
      rw (to_date_input_value, h.found)
        (match_date-text h.y h.m h.d h.year_min h.year_max h.month_max h.day_max)

  -- The text that stands for the day of a time is read as the first and the last millisecond of that
  -- day, for days of the years 1000 to 9999 whose boundaries the browser places in the day.
  pub parse-to_date_input_value :
      (parse_custom_date_start calendar (to_date_input_value calendar t) ≡ some h.first)
      × (parse_custom_date_end calendar (to_date_input_value calendar t) ≡ some h.last)
  unfolding parse_custom_date_start parse_custom_date_end
  parse-to_date_input_value = (
    boundary_read calendar (to_date_input_value calendar t) h.y h.m h.d false h.first written
        h.first_of h.first_in,
    boundary_read calendar (to_date_input_value calendar t) h.y h.m h.d true h.last written
        h.last_of h.last_in,
  )

-- Two times that are known, in order.
pub record InOrder (a b : Option ℤ) : Type 0 where
  pub first : ℤ
  pub last : ℤ
  pub first_known : a ≡ some first
  pub last_known : b ≡ some last
  pub ordered : first ≤ℤ last

-- Both ends of the range are dates of the calendar, and the first day is not after the last.
abbrev pub IsProper : Calendar → CustomRange → Type 0
IsProper calendar range =
    InOrder (parse_custom_date_start calendar range.start)
      (parse_custom_date_end calendar range.stop)

is_reversed-InOrder : (a b : Option ℤ) → InOrder a b → is_reversed a b ≡ false
is_reversed-InOrder a b h = rw (h.first_known, h.last_known) (ground (arith, h.ordered))

InOrder-is_reversed : (a b : Option ℤ) → is_reversed a b ≡ false → InOrder a b
InOrder-is_reversed none b h = ground arith
InOrder-is_reversed (some a) none h = ground arith
InOrder-is_reversed (some a) (some b) h = record {
  first = a;
  last = b;
  first_known = refl;
  last_known = refl;
  ordered = ground arith;
}

refuses-IsProper :
    (calendar : Calendar) (range : CustomRange)
    → (refuses calendar range ≡ false) ↔ IsProper calendar range
unfolding refuses
refuses-IsProper calendar range =
    let a = parse_custom_date_start calendar range.start in
    let b = parse_custom_date_end calendar range.stop in
    (InOrder-is_reversed a b, is_reversed-InOrder a b)

query_lem :
    (calendar : Calendar) (range : CustomRange)
    → get_event_query_window calendar true range ≡ build_custom_date_range_query calendar range
unfolding get_event_query_window build_custom_date_range_query
query_lem calendar range = ground arith

reads-not_blank :
    (calendar : Calendar) (s : String) (e : Bool) (t : ℤ)
    → parse_custom_date_boundary calendar s e ≡ some t
    → is_blank s ≡ false
unfolding parse_custom_date_boundary
reads-not_blank calendar s e t h = ground arith

complete :
    (calendar : Calendar) (range : CustomRange)
    → IsProper calendar range
    → is_incomplete range ≡ false
unfolding parse_custom_date_start parse_custom_date_end
complete calendar range h =
    rw
      (
        reads-not_blank calendar range.start false h.first h.first_known,
        reads-not_blank calendar range.stop true h.last h.last_known,
      )
      refl

abbrev full_query : CustomRange → Query
full_query range = record { valid = true; start = some range.start; stop = some range.stop }

accepted_query :
    (calendar : Calendar) (range : CustomRange)
    → IsProper calendar range
    → build_custom_date_range_query calendar range ≡ full_query range
unfolding build_custom_date_range_query
accepted_query calendar range h =
    rw (complete calendar range h, (refuses-IsProper calendar range).1 h) refl

refused_query :
    (calendar : Calendar) (range : CustomRange)
    → refuses calendar range ≡ true
    → build_custom_date_range_query calendar range ≡ no_query
unfolding build_custom_date_range_query
refused_query calendar range h = ground arith

-- With a custom range the table of events asks the server just when both ends of the range are dates of
-- the calendar in order; it sends the two texts as they are, and otherwise it sends nothing.
get_event_query_window_lem :
    (calendar : Calendar) (range : CustomRange)
    → (((get_event_query_window calendar true range).valid ≡ true) ↔ IsProper calendar range)
      × (get_event_query_window calendar true range ≡ (
          if (get_event_query_window calendar true range).valid
          then record { valid = true; start = some range.start; stop = some range.stop }
          else no_query))
get_event_query_window_lem calendar range =
    rw (query_lem calendar range) (elim (Bool-cases (refuses calendar range)) [
      | inl e ↦
          rw (refused_query calendar range e)
            (((λ h. ground arith), (λ h. sym ((refuses-IsProper calendar range).1 h) ∙ e)), refl)
      | inr e ↦
          let h = (refuses-IsProper calendar range).0 e in
          rw (accepted_query calendar range h) (((λ k. h), (λ k. refl)), refl)
    ])

-- A range that is not yet filled in, or one that the server can be asked for.
abbrev pub IsUsable : Calendar → CustomRange → Type 0
IsUsable calendar range =
    (is_incomplete range ≡ true) ⊎ ((build_custom_date_range_query calendar range).valid ≡ true)

proper-IsUsable :
    (calendar : Calendar) (range : CustomRange) → IsProper calendar range → IsUsable calendar range
proper-IsUsable calendar range h = inr (ap (λ q. q.valid) (accepted_query calendar range h))

default-IsUsable :
    (calendar : Calendar) (now : ℤ)
    → IsDay calendar now
    → IsDay calendar (now -ℤ pos default_window_ms)
    → IsUsable calendar (build_default_custom_range calendar now)
unfolding build_default_custom_range
default-IsUsable calendar now h k =
    proper-IsUsable calendar (build_default_custom_range calendar now) record {
      first = k.first;
      last = h.last;
      first_known = (parse-to_date_input_value calendar (now -ℤ pos default_window_ms) k).0;
      last_known = (parse-to_date_input_value calendar now h).1;
      ordered = omega (int_laws, k.after_first, h.before_last);
    }

chosen-IsUsable :
    (calendar : Calendar) (range other : CustomRange)
    → IsUsable calendar other
    → IsUsable calendar
        (if is_incomplete range then range else if refuses calendar range then other else range)
chosen-IsUsable calendar range other h = elim (Bool-cases (is_incomplete range)) [
  | inl e ↦ rw e (inl e)
  | inr e ↦ elim (Bool-cases (refuses calendar range)) [
    | inl k ↦ rw (e, k) h
    | inr k ↦ rw (e, k) (proper-IsUsable calendar range ((refuses-IsProper calendar range).0 k))
  ]
]

-- Whatever is stored, the range that the page starts with is incomplete or can be asked for, if the
-- browser places the boundaries of today and of the day eight hours ago as it should.
pub load_custom_time_range_lem :
    (calendar : Calendar) (now : ℤ) (saved : Saved)
    → IsDay calendar now
    → IsDay calendar (now -ℤ pos default_window_ms)
    → IsUsable calendar (load_custom_time_range calendar now saved)
unfolding load_custom_time_range
load_custom_time_range_lem calendar now unreadable h k = default-IsUsable calendar now h k
load_custom_time_range_lem calendar now (parsed start stop) h k =
    chosen-IsUsable calendar record { start = or_else start ""; stop = or_else stop "" }
      (build_default_custom_range calendar now) (default-IsUsable calendar now h k)
