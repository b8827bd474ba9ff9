-- ===== src/Snapshot/Tally.antt =====
-- What the numbers and the buckets of a snapshot have to be for some events.
use daili_usage_keeper_north.Base.{
  ℕ, ◌+◌, ◌≡◌, refl, ap, ◌∙◌, String, not, Option, none, some, List, [], ◌∷◌, foldl, Dict, lookup,
  total, total-update, count_of, total_ℤ, total_ℤ-update, amount_of, absorb, update, ℤ, pos, ◌+ℤ◌,
  filter, length, arith, int_laws, pos_part, neg_part, +ℤ_assoc, +ℤ_zero, zero_+ℤ,
}
use daili_usage_keeper_north.Snapshot.{
  UsageEvent, UsageSnapshot, ApiSnapshot, Totals, no_totals, count_event, tokens_of_event,
  add_event_to_api, one_more, tokens_more, no_snapshot,
}

abbrev pub sum_of_tokens : List UsageEvent → ℤ
sum_of_tokens [] = pos 0
sum_of_tokens (e ∷ es) = tokens_of_event e +ℤ sum_of_tokens es

-- What the four numbers have to be for some events.
abbrev pub tally : List UsageEvent → Totals
tally es = record {
  total_requests = length es;
  success_count = length (filter (λ e. not e.detail.failed) es);
  failure_count = length (filter (λ e. e.detail.failed) es);
  total_tokens = sum_of_tokens es;
}

abbrev pub plus : Totals → Totals → Totals
plus a b = record {
  total_requests = a.total_requests + b.total_requests;
  success_count = a.success_count + b.success_count;
  failure_count = a.failure_count + b.failure_count;
  total_tokens = a.total_tokens +ℤ b.total_tokens;
}

pub zero_plus : (t : Totals) → plus no_totals t ≡ t
zero_plus t = ground (arith, zero_+ℤ t.total_tokens)

abbrev pub count_all : Totals → List UsageEvent → Totals
count_all t es = foldl (λ u e. count_event e u) t es

pub count_all-plus : (t : Totals) (es : List UsageEvent) → count_all t es ≡ plus t (tally es)
unfolding count_event
count_all-plus t [] = ground (arith, +ℤ_zero t.total_tokens)
count_all-plus t (e ∷ es) = ground (
  arith,
  count_all-plus (count_event e t) es,
  +ℤ_assoc t.total_tokens (tokens_of_event e) (sum_of_tokens es),
)

-- The numbers of an API, which has none where it has no events.
abbrev pub totals_of_api : Option ApiSnapshot → Totals
totals_of_api none = no_totals
totals_of_api (some a) = a.totals

pub absorb-totals :
    (o : Option ApiSnapshot) (es : List UsageEvent)
    → totals_of_api (absorb add_event_to_api o es) ≡ count_all (totals_of_api o) es
unfolding add_event_to_api
absorb-totals o [] = refl
absorb-totals none (e ∷ es) = absorb-totals (some (add_event_to_api e none)) es
absorb-totals (some a) (e ∷ es) = absorb-totals (some (add_event_to_api e (some a))) es

-- The sums over the buckets.
abbrev pub requests_in : Dict ℕ → ℕ
requests_in m = total (λ n. n) m

abbrev pub tokens_in : Dict ℤ → ℤ
tokens_in m = total_ℤ (λ n. n) m

one_more_lem : (o : Option ℕ) → one_more o ≡ count_of (λ n. n) o + 1
one_more_lem none = refl
one_more_lem (some n) = refl

pub bump : (k : String) (m : Dict ℕ) → requests_in (update k one_more m) ≡ requests_in m + 1
bump k m = omega (arith, total-update (λ n. n) k one_more m, one_more_lem (lookup k m))

tokens_more_lem : (n : ℤ) (o : Option ℤ) → tokens_more n o ≡ amount_of (λ t. t) o +ℤ n
tokens_more_lem n none = refl
tokens_more_lem n (some t) = refl

cancel : (a b c d e : ℤ) → a +ℤ b ≡ c +ℤ d → d ≡ b +ℤ e → a ≡ c +ℤ e
cancel a b c d e h k = omega (int_laws, ap pos_part h, ap neg_part h, ap pos_part k, ap neg_part k)

pub bump_tokens :
    (k : String) (n : ℤ) (m : Dict ℤ) → tokens_in (update k (tokens_more n) m) ≡ tokens_in m +ℤ n
bump_tokens k n m =
    cancel (tokens_in (update k (tokens_more n) m)) (amount_of (λ t. t) (lookup k m)) (tokens_in m)
      (tokens_more n (lookup k m)) n (total_ℤ-update (λ t. t) k (tokens_more n) m)
      (tokens_more_lem n (lookup k m))

-- The sums over the four kinds of buckets: the requests and the tokens of each day and of each hour.
pub record HoldsAll (s : UsageSnapshot) (n : ℕ) (t : ℤ) : Type 0 where
  pub days : requests_in s.requests_by_day ≡ n
  pub hours : requests_in s.requests_by_hour ≡ n
  pub day_tokens : tokens_in s.tokens_by_day ≡ t
  pub hour_tokens : tokens_in s.tokens_by_hour ≡ t

pub moved-HoldsAll :
    (s : UsageSnapshot) (n m : ℕ) (t u : ℤ) → HoldsAll s n t → n ≡ m → t ≡ u → HoldsAll s m u
moved-HoldsAll s n m t u c e f = record {
  days = c.days ∙ e;
  hours = c.hours ∙ e;
  day_tokens = c.day_tokens ∙ f;
  hour_tokens = c.hour_tokens ∙ f;
}

pub none-HoldsAll : HoldsAll no_snapshot 0 (pos 0)
none-HoldsAll = record { days = refl; hours = refl; day_tokens = refl; hour_tokens = refl }
