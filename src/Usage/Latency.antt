-- ===== src/Usage/Latency.antt =====
-- web/src/utils/usage/latency.ts, on whole milliseconds. `Intl.NumberFormat`, the labels of the units
-- and the translation of text to numbers are arguments.
pub mod Laws
use daili_usage_keeper_north.Base.{
  ℕ, ◌+◌, ◌-◌, ◌*◌, ◌/◌, zero, suc, String, Bool, true, false, Option, none, some, List, [], ◌∷◌,
  map, ℤ, pos, negsuc, JsNumber, num, nan, infinity, neg_infinity, if◌then◌else◌, ltb, leb, or_else,
  is_blank, trim, filter, take, min,
}

-- A field of a value of which nothing is known.
pub data RawValue : Type 0 where
  missing : RawValue
  text : String → RawValue
  number : JsNumber → RawValue

-- `Number.isFinite(parsed) && parsed >= 0`
unfoldable pub finite_from_zero : JsNumber → Option ℕ
finite_from_zero (num (pos n)) = some n
finite_from_zero _ = none

module _ (number_of : String → JsNumber) where
  unfoldable pub extract_latency_ms : RawValue → Option ℕ
  unfolding finite_from_zero trim
  extract_latency_ms missing = none
  extract_latency_ms (number n) = finite_from_zero n
  extract_latency_ms (text s) = if is_blank (trim s) then none else finite_from_zero (number_of s)

pub record LatencyAccumulator : Type 0 where
  pub total_ms : ℕ
  pub sample_count : ℕ

-- The average is the quotient of two numbers, which is kept as the pair of them.
pub record LatencyStats : Type 0 where
  pub average_ms : Option (ℕ × ℕ)
  pub total_ms : Option ℕ
  pub sample_count : ℕ

unfoldable pub create_latency_accumulator : LatencyAccumulator
create_latency_accumulator = record { total_ms = 0; sample_count = 0 }

unfoldable pub add_latency_sample : LatencyAccumulator → Option ℕ → LatencyAccumulator
add_latency_sample acc none = acc
add_latency_sample acc (some n) = record {
  total_ms = acc.total_ms + n;
  sample_count = acc.sample_count + 1;
}

unfoldable pub finalize_latency_stats : LatencyAccumulator → LatencyStats
finalize_latency_stats acc = record {
  average_ms = if ltb 0 acc.sample_count then some (acc.total_ms, acc.sample_count) else none;
  total_ms = if ltb 0 acc.sample_count then some acc.total_ms else none;
  sample_count = acc.sample_count;
}

module _ (number_of : String → JsNumber) where
  unfoldable pub add_latency_samples : LatencyAccumulator → List RawValue → LatencyAccumulator
  unfolding add_latency_sample extract_latency_ms
  add_latency_samples acc [] = acc
  add_latency_samples acc (d ∷ ds) =
      add_latency_samples (add_latency_sample acc (extract_latency_ms number_of d)) ds

  unfoldable pub calculate_latency_stats_from_details : List RawValue → LatencyStats
  unfolding add_latency_samples create_latency_accumulator finalize_latency_stats
  calculate_latency_stats_from_details details =
      finalize_latency_stats (add_latency_samples create_latency_accumulator details)

pub data DurationUnit : Type 0 where
  unit_d unit_h unit_m unit_s unit_ms : DurationUnit

-- What `formatDurationPart` is given: a value in thousandths, its unit, and the digits to show.
pub record Shown : Type 0 where
  pub thousandths : ℕ
  pub unit : DurationUnit
  pub minimum_integer_digits : ℕ
  pub maximum_fraction_digits : Option ℕ

pub record Part : Type 0 where
  pub unit : DurationUnit
  pub value : ℕ

unfoldable pub normalize_duration_max_units : Option ℤ → ℕ
normalize_duration_max_units (some (pos (suc n))) = min (suc n) 4
normalize_duration_max_units _ = 2

-- `none` is 'auto', or no option at all.
unfoldable pub resolve_second_decimal_places : ℕ → Option ℤ → ℕ
resolve_second_decimal_places ms (some (pos n)) = min n 3
resolve_second_decimal_places ms _ = if ltb ms 10_000 then 2 else 1

-- The parts of a duration of at least a minute, largest first.
unfoldable pub parts_of : ℕ → List Part
parts_of total_seconds =
    let days = total_seconds / 86_400 in
    let after_days = total_seconds - days * 86_400 in
    let hours = after_days / 3_600 in
    let after_hours = after_days - hours * 3_600 in
    let minutes = after_hours / 60 in
    let seconds = after_hours - minutes * 60 in
    record { unit = unit_d; value = days }
    ∷ record { unit = unit_h; value = hours }
    ∷ record { unit = unit_m; value = minutes }
    ∷ record { unit = unit_s; value = seconds }
    ∷ []

abbrev pub is_shown : Part → Bool
is_shown p = ltb 0 p.value

abbrev pub pads : DurationUnit → Bool
pads unit_m = true
pads unit_s = true
pads _ = false

abbrev pub show_part : Bool → Part → Shown
show_part first p = record {
  thousandths = p.value * 1_000;
  unit = p.unit;
  minimum_integer_digits = if first then 1 else if pads p.unit then 2 else 1;
  maximum_fraction_digits = some 0;
}

-- Without any part it is 0 s.
unfoldable pub show_parts : List Part → List Shown
show_parts [] =
    record {
      thousandths = 0;
      unit = unit_s;
      minimum_integer_digits = 1;
      maximum_fraction_digits = none;
    }
    ∷ []
show_parts (p ∷ ps) = show_part true p ∷ map (show_part false) ps

-- `none` is the text for an invalid value; the parts are joined by a space.
unfoldable pub format_duration_ms : Option ℤ → Option ℤ → JsNumber → Option (List Shown)
unfolding finite_from_zero normalize_duration_max_units resolve_second_decimal_places parts_of
    show_parts
format_duration_ms max_units second_decimals value = elim (finite_from_zero value) [
  | none ↦ none
  | some ms ↦
      if ltb ms 1_000
      then some (
          record {
            thousandths = ms * 1_000;
            unit = unit_ms;
            minimum_integer_digits = 1;
            maximum_fraction_digits = none;
          }
          ∷ [])
      else if ltb ms 60_000
      then some (
          record {
            thousandths = ms;
            unit = unit_s;
            minimum_integer_digits = 1;
            maximum_fraction_digits = some (resolve_second_decimal_places ms second_decimals);
          }
          ∷ [])
      else some (
          show_parts (
            take (normalize_duration_max_units max_units)
              (filter is_shown (parts_of (ms / 1_000)))))
]
