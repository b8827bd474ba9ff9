-- ===== src/Snapshot/Range.antt =====
-- Which events lie in a range, said on its own.
use daili_usage_keeper_north.Base.{
  ℕ, ◌*◌, ◌≡◌, refl, ap, ◌↔◌, ◌⊎◌, inl, inr, Bool, max_ℤ, true, false, Option, none, some,
  some-injective, List, [], ◌∷◌, All, ℤ, pos, ◌-ℤ◌, ◌≤ℤ◌, arith, int_laws, Option-cases, Bool-cases,
  leb_ℤ, sym, ◌∙◌, subst,
}
use daili_usage_keeper_north.Host.{Host}
use daili_usage_keeper_north.Usage.Window.{
  TimeRange, all, hours_4, hours_8, hours_12, hours_24, today, days_7, custom,
}
use daili_usage_keeper_north.Snapshot.{
  UsageEvent, is_kept, time_of_event, threshold_of, upper_threshold_of, latest_timestamp,
  finite_times, largest, is_whole,
}

-- The hours that a preset reaches back from the latest event.
abbrev hour_count : TimeRange → ℕ
hour_count hours_4 = 4
hour_count hours_8 = 8
hour_count hours_12 = 12
hour_count hours_24 = 24
hour_count days_7 = 7 * 24
hour_count _ = 0

-- Of today are the times from midnight to now, and of a preset those that are no more than its hours
-- before the latest event.
abbrev pub IsTimely : TimeRange → (now midnight latest t : ℤ) → Type 0
IsTimely today now midnight latest t = (midnight ≤ℤ t) × (t ≤ℤ now)
IsTimely range now midnight latest t = latest -ℤ pos (hour_count range * 3_600_000) ≤ℤ t

abbrev OneOf : ℤ → List ℤ → Type 0
OneOf t [] = ⊥
OneOf t (u ∷ us) = (u ≡ t) ⊎ OneOf t us

one_of : (t u v : ℤ) (ts : List ℤ) → OneOf v (max_ℤ t u ∷ ts) → OneOf v (t ∷ u ∷ ts)
one_of t u v ts (inr k) = inr (inr k)
one_of t u v ts (inl k) = elim (Bool-cases (leb_ℤ t u)) [
  | inl e ↦ inr (inl (ground arith))
  | inr e ↦ inl (ground arith)
]

largest_lem :
    (t : ℤ) (ts : List ℤ)
    → (t ≤ℤ largest t ts) × All (λ u. u ≤ℤ largest t ts) ts × OneOf (largest t ts) (t ∷ ts)
largest_lem t [] = (omega int_laws, tt, inl refl)
largest_lem t (u ∷ ts) =
    let (first, rest, one) = largest_lem (max_ℤ t u) ts in
    (
      ground (arith, first),
      (ground (arith, first), rest),
      one_of t u (largest (max_ℤ t u) ts) ts one,
    )

module _ (h : Host) where
  -- The event has a date, and its time is in the range.
  abbrev pub LiesIn : TimeRange → (now midnight latest : ℤ) → UsageEvent → Type 0
  LiesIn range now midnight latest e =
      (t : ℤ) × (time_of_event h e ≡ some t) × IsTimely range now midnight latest t

  -- One of the events has the time.
  abbrev pub Reaches : ℤ → List UsageEvent → Type 0
  Reaches latest [] = ⊥
  Reaches latest (e ∷ es) = (time_of_event h e ≡ some latest) ⊎ Reaches latest es

  abbrev pub IsNotLater : ℤ → UsageEvent → Type 0
  IsNotLater latest e = (t : ℤ) → time_of_event h e ≡ some t → t ≤ℤ latest

  -- The latest time of some events: one of them has it, and none has a later one.
  abbrev pub IsLatest : ℤ → List UsageEvent → Type 0
  IsLatest latest es = Reaches latest es × All (IsNotLater latest) es

  abbrev pub is_in : TimeRange → (now midnight latest : ℤ) → UsageEvent → Bool
  is_in range now midnight latest =
      is_kept h (threshold_of range midnight latest) (upper_threshold_of range now)

  kept_after :
      (threshold t : ℤ) (e : UsageEvent)
      → time_of_event h e ≡ some t
      → (is_kept h threshold none e ≡ true) ↔ (threshold ≤ℤ t)
  kept_after threshold t e k = rw (is_kept, k) (ground arith)

  kept_between :
      (threshold upper t : ℤ) (e : UsageEvent)
      → time_of_event h e ≡ some t
      → (is_kept h threshold (some upper) e ≡ true) ↔ ((threshold ≤ℤ t) × (t ≤ℤ upper))
  kept_between threshold upper t e k = rw (is_kept, k) (ground arith)

  undated :
      (threshold : ℤ) (upper : Option ℤ) (e : UsageEvent)
      → time_of_event h e ≡ none
      → is_kept h threshold upper e ≡ false
  undated threshold upper e k = rw (is_kept, k) refl

  timely :
      (range : TimeRange) (now midnight latest t : ℤ) (e : UsageEvent)
      → is_whole range ≡ false
      → time_of_event h e ≡ some t
      → (is_in range now midnight latest e ≡ true) ↔ IsTimely range now midnight latest t
  timely today now midnight latest t e w k = kept_between midnight now t e k
  timely hours_4 now midnight latest t e w k =
      kept_after (latest -ℤ pos (hour_count hours_4 * 3_600_000)) t e k
  timely hours_8 now midnight latest t e w k =
      kept_after (latest -ℤ pos (hour_count hours_8 * 3_600_000)) t e k
  timely hours_12 now midnight latest t e w k =
      kept_after (latest -ℤ pos (hour_count hours_12 * 3_600_000)) t e k
  timely hours_24 now midnight latest t e w k =
      kept_after (latest -ℤ pos (hour_count hours_24 * 3_600_000)) t e k
  timely days_7 now midnight latest t e w k =
      kept_after (latest -ℤ pos (hour_count days_7 * 3_600_000)) t e k
  timely all now midnight latest t e w k = cc
  timely custom now midnight latest t e w k = cc

  -- What the loop keeps are the events that lie in the range.
  pub is_in_iff :
      (range : TimeRange) (now midnight latest : ℤ) (e : UsageEvent)
      → is_whole range ≡ false
      → (is_in range now midnight latest e ≡ true) ↔ LiesIn range now midnight latest e
  is_in_iff range now midnight latest e w = elim (Option-cases (time_of_event h e)) [
    | inl k ↦
        let out = undated (threshold_of range midnight latest) (upper_threshold_of range now) e k in
        (λ i. cc, λ (u, m, j). cc)
    | inr (t, k) ↦
        let (into, back) = timely range now midnight latest t e w k in
        (
          λ i. (t, k, into i),
          λ (u, m, j).
              back (subst (IsTimely range now midnight latest) (some-injective _ _ (sym m ∙ k)) j),
        )
  ]

  dated :
      (latest t : ℤ) (e : UsageEvent)
      → time_of_event h e ≡ some t
      → t ≤ℤ latest
      → IsNotLater latest e
  dated latest t e f k u m = subst (λ v. v ≤ℤ latest) (some-injective _ _ (sym f ∙ m)) k

  times_none :
      (e : UsageEvent) (es : List UsageEvent)
      → time_of_event h e ≡ none
      → finite_times h (e ∷ es) ≡ finite_times h es
  unfolding finite_times
  times_none e es f = rw (finite_times, f) refl

  times_some :
      (t : ℤ) (e : UsageEvent) (es : List UsageEvent)
      → time_of_event h e ≡ some t
      → finite_times h (e ∷ es) ≡ t ∷ finite_times h es
  unfolding finite_times
  times_some t e es f = rw (finite_times, f) refl

  above-All :
      (latest : ℤ) (es : List UsageEvent)
      → All (λ t. t ≤ℤ latest) (finite_times h es)
      → All (IsNotLater latest) es
  unfolding finite_times
  above-All latest [] k = tt
  above-All latest (e ∷ es) k = elim (Option-cases (time_of_event h e)) [
    | inl f ↦
        ((λ t m. cc), above-All latest es (subst (All (λ t. t ≤ℤ latest)) (times_none e es f) k))
    | inr (t, f) ↦
        let times = subst (All (λ t. t ≤ℤ latest)) (times_some t e es f) k in
        (dated latest t e f times.0, above-All latest es times.1)
  ]

  reached :
      (latest : ℤ) (es : List UsageEvent) → OneOf latest (finite_times h es) → Reaches latest es
  unfolding finite_times
  reached latest [] k = k
  reached latest (e ∷ es) k = elim (Option-cases (time_of_event h e)) [
    | inl f ↦ inr (reached latest es (subst (OneOf latest) (times_none e es f) k))
    | inr (t, f) ↦ elim (subst (OneOf latest) (times_some t e es f) k) [
      | inl same ↦ inl (f ∙ ap some same)
      | inr later ↦ inr (reached latest es later)
    ]
  ]

  pub latest_timestamp-IsLatest :
      (latest : ℤ) (es : List UsageEvent) → latest_timestamp h es ≡ some latest → IsLatest latest es
  unfolding latest_timestamp
  latest_timestamp-IsLatest latest es k =
      elim (finite_times h es)
          as (λ ts.
            finite_times h es ≡ ts
            → elim ts [ [] ↦ none | t ∷ us ↦ some (largest t us) ] ≡ some latest
            → IsLatest latest es) [
              | [] ↦ λ f m. cc
              | t ∷ us ↦ λ f m.
                  let at_latest = some-injective _ _ m in
                  let (first, rest, one) = largest_lem t us in
                  (
                    reached latest es (
                        subst (λ u. OneOf u (finite_times h es)) at_latest
                          (subst (OneOf (largest t us)) (sym f) one)),
                    above-All latest es (
                        subst (λ u. All (λ v. v ≤ℤ u) (finite_times h es)) at_latest
                          (subst (All (λ v. v ≤ℤ largest t us)) (sym f) (first, rest))),
                  )
            ]
        refl k
