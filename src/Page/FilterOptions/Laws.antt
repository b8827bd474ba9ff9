-- ===== src/Page/FilterOptions/Laws.antt =====
-- The options of the filters over any sequence of events.
use daili_usage_keeper_north.Base.{
  ℕ, ◌≡◌, refl, Bool, true, none, some, arith, List, ◌∙◌, String, str_eq, Bool-cases, Option-cases,
  ap, inl, inr,
}
use daili_usage_keeper_north.Store.{Failure, is_id}
use daili_usage_keeper_north.Page.Loader.{Pending}
use daili_usage_keeper_north.Page.Loader.Invariant.{is_on_way}
use daili_usage_keeper_north.Page.FilterOptions.{
  FilterOptions, OptionsResponse, options_key, first_options, load_event_filter_options,
  leave_options, settle_options, settle_options_failure, receive_options, receive_options_failure,
}

module _ {S : Type 0} where
  pub data Step : FilterOptions S → FilterOptions S → Type 0 where
    entered : (p : FilterOptions S) → Step p (load_event_filter_options p)
    left : (p : FilterOptions S) → Step p (leave_options p)
    responded :
        (i : ℕ) (r : OptionsResponse S) (p : FilterOptions S)
        → Step p (settle_options i r (p.flights i) p)
    failed :
        (i : ℕ) (f : Failure) (p : FilterOptions S)
        → Step p (settle_options_failure i f (p.flights i) p)

  -- Any number of steps.
  pub data Steps : FilterOptions S → FilterOptions S → Type 0 where
    here : (p : FilterOptions S) → Steps p p
    next : {p q r : FilterOptions S} → Steps p q → Step q r → Steps p r

  abbrev pub is_loaded : FilterOptions S → Bool
  is_loaded p = str_eq p.loaded_key options_key

  -- The requests that are not aborted are the one of the controller; once the options are loaded there
  -- is none.
  pub record IsSingle (p : FilterOptions S) : Type 0 where
    pub current : (i : ℕ) → is_on_way (p.flights i) ≡ is_id p.controller i
    pub idle : is_loaded p ≡ true → p.controller ≡ none

  first_options-IsSingle : IsSingle first_options
  first_options-IsSingle = record { current = λ i. refl; idle = λ e. refl }

  enter-IsSingle : (p : FilterOptions S) → IsSingle p → IsSingle (load_event_filter_options p)
  unfolding load_event_filter_options
  enter-IsSingle p h = elim (Bool-cases (is_loaded p)) [
    | inl e ↦ rw e h
    | inr e ↦ rw e record { current = λ i. ground (arith, h.current i); idle = λ k. cc }
  ]

  leave_options-IsSingle : (p : FilterOptions S) → IsSingle p → IsSingle (leave_options p)
  unfolding leave_options
  leave_options-IsSingle p h = record {
    current = λ i. ground (arith, h.current i);
    idle = λ e. refl;
  }

  receive_options-IsSingle :
      (i : ℕ) (r : OptionsResponse S) (p : FilterOptions S)
      → IsSingle p
      → IsSingle (receive_options i r p)
  unfolding receive_options
  receive_options-IsSingle i r p h = elim (Bool-cases (is_id p.controller i)) [
    | inl e ↦ rw e record { current = λ j. ground (arith, h.current j); idle = λ k. ground arith }
    | inr e ↦
        rw e
          record { current = λ j. ground (arith, h.current j); idle = λ k. ground (arith, h.idle) }
  ]

  receive_options_failure-IsSingle :
      (i : ℕ) (f : Pending Unit) (failure : Failure) (p : FilterOptions S)
      → IsSingle p
      → p.flights i ≡ some f
      → IsSingle (receive_options_failure i f.aborted failure p)
  unfolding receive_options_failure
  receive_options_failure-IsSingle i f failure p h on_way = record {
    current = λ j. ground (arith, h.current j, h.current i);
    idle = λ k. ground (arith, h.idle, h.current i);
  }

  Step-IsSingle : {p q : FilterOptions S} → Step p q → IsSingle p → IsSingle q
  Step-IsSingle (entered p) h = enter-IsSingle p h
  Step-IsSingle (left p) h = leave_options-IsSingle p h
  Step-IsSingle (responded i r p) h = elim (Option-cases (p.flights i)) [
    | inl e ↦ rw e h
    | inr (f, e) ↦ rw e (receive_options-IsSingle i r p h)
  ]
  Step-IsSingle (failed i x p) h = elim (Option-cases (p.flights i)) [
    | inl e ↦ rw e h
    | inr (f, e) ↦ rw e (receive_options_failure-IsSingle i f x p h e)
  ]

  -- What is loaded: the lists that are offered, and the number of requests that were made.
  abbrev pub loaded : FilterOptions S → List String × List S × ℕ × Bool
  loaded p = (p.models, p.sources, p.next, is_loaded p)

  receive_options-none :
      (i : ℕ) (r : OptionsResponse S) (p : FilterOptions S)
      → p.controller ≡ none
      → loaded (receive_options i r p) ≡ loaded p
  unfolding receive_options
  receive_options-none i r p h = ground arith

  receive_options_failure-none :
      (i : ℕ) (f : Pending Unit) (x : Failure) (p : FilterOptions S)
      → p.controller ≡ none
      → IsSingle p
      → loaded (receive_options_failure i f.aborted x p) ≡ loaded p
  unfolding receive_options_failure
  receive_options_failure-none i f x p h s = ground arith

  Step-loaded :
      {p q : FilterOptions S} → Step p q → IsSingle p → is_loaded p ≡ true → loaded q ≡ loaded p
  unfolding load_event_filter_options leave_options
  Step-loaded (entered p) s h = ground arith
  Step-loaded (left p) s h = refl
  Step-loaded (responded i r p) s h = elim (Option-cases (p.flights i)) [
    | inl e ↦ rw e refl
    | inr (f, e) ↦ rw e (receive_options-none i r p (s.idle h))
  ]
  Step-loaded (failed i x p) s h = elim (Option-cases (p.flights i)) [
    | inl e ↦ rw e refl
    | inr (f, e) ↦ rw e (receive_options_failure-none i f x p (s.idle h) s)
  ]

  Steps-IsSingle : {p q : FilterOptions S} → Steps p q → IsSingle p → IsSingle q
  Steps-IsSingle (here p) s = s
  Steps-IsSingle (next r step) s = Step-IsSingle step (Steps-IsSingle r s)

  still_loaded :
      (p q : FilterOptions S) → loaded q ≡ loaded p → is_loaded p ≡ true → is_loaded q ≡ true
  still_loaded p q e h = ap (λ t. t.3) e ∙ h

  Steps-loaded :
      {p q : FilterOptions S} → Steps p q → IsSingle p → is_loaded p ≡ true → loaded q ≡ loaded p
  Steps-loaded (here p) s h = refl
  Steps-loaded (next {p} {q} {r} steps step) s h =
      let ih = Steps-loaded steps s h in
      Step-loaded step (Steps-IsSingle steps s) (still_loaded p q ih h) ∙ ih

  -- Once the options are loaded, whatever entries, other tabs, answers and failures of requests that are
  -- still on their way follow, in whatever order: the lists stay, and no further request is made.
  pub loaded_once :
      {p q : FilterOptions S}
      → Steps first_options p
      → is_loaded p ≡ true
      → Steps p q
      → loaded q ≡ loaded p
  loaded_once before h after = Steps-loaded after (Steps-IsSingle before first_options-IsSingle) h
