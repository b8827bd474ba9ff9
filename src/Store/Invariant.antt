-- ===== src/Store/Invariant.antt =====
-- What holds of the overview store after any sequence of loads, answers, failures and clears.
use daili_usage_keeper_north.Base.{
  ℕ, ◌≤◌, ◌≡◌, refl, ap, sym, String, Bool, true, false, Option, none, some, arith, Bool-cases, inl,
  inr, is_some, if◌then◌else◌, ◌&&◌,
}
use daili_usage_keeper_north.Store.{
  Failure, LoadOptions, Flight, State, initial, start_request, load_key, load_usage_stats, release,
  on_response, on_failure, clear_usage_stats, is_id, is_key, abort, landed,
}

abort-none :
    (o : Option ℕ) (flights : ℕ → Option Flight) (i : ℕ)
    → flights i ≡ none
    → abort o flights i ≡ none
abort-none none flights i h = h
abort-none (some c) flights i h = ground arith

abbrev superseded : {R : Type 0} → State R → Option ℕ
superseded s = if s.loading && is_some s.active_request then s.active_request_controller else none

-- `key_of r` is the query that the response `r` answers.
module _ {R : Type 0} (key_of : R → String) where
  -- A step is one load, one answer to a request on its way, one failure of it, or a clear. The
  -- server answers the query that it was asked.
  pub data Step : State R → State R → Type 0 where
    load :
        (options : LoadOptions) (now : ℕ) (s : State R) → Step s (load_usage_stats options now s).0
    answer :
        (i : ℕ) (f : Flight) (r : R) (now : ℕ) (s : State R)
        → s.flights i ≡ some f
        → key_of r ≡ f.query_key
        → Step s (on_response i f.query_key r now s)
    fail :
        (i : ℕ) (f : Flight) (failure : Failure) (s : State R)
        → s.flights i ≡ some f
        → Step s (on_failure i f.aborted failure s)
    clear : (s : State R) → Step s (clear_usage_stats s)

  pub data Reach : State R → Type 0 where
    here : Reach initial
    next : {s t : State R} → Reach s → Step s t → Reach t

  abbrev pub IsShown : Option R → Option String → Type 0
  IsShown none k = Unit
  IsShown (some r) k = k ≡ some (key_of r)

  -- The active request, if there is one, is on its way for the active key and is not aborted.
  abbrev pub IsLive : Option ℕ → State R → Type 0
  IsLive none s = (s.active_request ≡ none) × (s.active_request_key ≡ none)
  IsLive (some c) s =
      (s.active_request ≡ some c)
      × ((k : String) × (s.active_request_key ≡ some k)
          × (s.flights c ≡ some (record { query_key = k; aborted = false })))

  pub record IsConsistent (s : State R) : Type 0 where
    pub live : IsLive s.active_request_controller s
    pub busy : s.loading ≡ true → is_some s.active_request_controller ≡ true
    pub unused : (i : ℕ) → s.next ≤ i → s.flights i ≡ none
    pub shown : IsShown s.usage s.last_query_key

  initial-IsConsistent : IsConsistent initial
  initial-IsConsistent = record {
    live = (refl, refl);
    busy = λ e. cc;
    unused = λ i h. refl;
    shown = tt;
  }

  start_request-IsConsistent :
      (key : String) (s : State R) → IsConsistent s → IsConsistent (start_request key s)
  unfolding start_request
  start_request-IsConsistent key s c = record {
    live = (refl, (key, refl, ground arith));
    busy = λ e. refl;
    unused = λ i h. ground (arith, c.unused i, abort-none (superseded s) s.flights i);
    shown = c.shown;
  }

  release_active-IsConsistent :
      (i : ℕ) (s : State R)
      → is_id s.active_request_controller i ≡ true
      → s.loading ≡ false
      → ((j : ℕ) → s.next ≤ j → s.flights j ≡ none)
      → IsShown s.usage s.last_query_key
      → IsConsistent (release i s)
  unfolding release
  release_active-IsConsistent i s a l u h = rw a (record {
    live = (refl, refl);
    busy = λ e. cc;
    unused = λ j k. ground (arith, u j);
    shown = h;
  })

  release_other-IsConsistent :
      (i : ℕ) (s : State R)
      → is_id s.active_request_controller i ≡ false
      → IsConsistent s
      → IsConsistent (release i s)
  unfolding release
  release_other-IsConsistent i s a c = rw a (record {
    live = keep s.active_request_controller a c.live;
    busy = c.busy;
    unused = λ j k. ground (arith, c.unused j);
    shown = c.shown;
  })
    where
      keep :
          (o : Option ℕ)
          → is_id o i ≡ false
          → IsLive o s
          → IsLive o (record s { flights = landed i s })
      keep none e h = h
      keep (some j) e (same, (k, key, flies)) = (same, (k, key, ground arith))

  load_key-IsConsistent :
      (fresh : Bool) (key : String) (s : State R)
      → IsConsistent s
      → IsConsistent (load_key fresh key s).0
  unfolding load_key
  load_key-IsConsistent true key s c = c
  load_key-IsConsistent false key s c =
      elim (Bool-cases (s.loading && is_some s.active_request && is_key s.active_request_key key)) [
        | inl e ↦ rw e c
        | inr e ↦ rw e (start_request-IsConsistent key s c)
      ]

  on_response-IsConsistent :
      (i : ℕ) (key : String) (r : R) (now : ℕ) (s : State R)
      → key_of r ≡ key
      → IsConsistent s
      → IsConsistent (on_response i key r now s)
  unfolding on_response
  on_response-IsConsistent i key r now s e c =
      elim (Bool-cases (is_id s.active_request_controller i)) [
        | inl a ↦ rw a (release_active-IsConsistent i _ a refl c.unused (ap some (sym e)))
        | inr a ↦ rw a (release_other-IsConsistent i s a c)
      ]

  on_failure-IsConsistent :
      (i : ℕ) (f : Flight) (failure : Failure) (s : State R)
      → s.flights i ≡ some f
      → IsConsistent s
      → IsConsistent (on_failure i f.aborted failure s)
  unfolding on_failure
  on_failure-IsConsistent i f failure s flies c =
      elim (Bool-cases (is_id s.active_request_controller i)) [
        | inl a ↦
            rw (not_aborted s.active_request_controller a c.live, a)
              (release_active-IsConsistent i _ a refl c.unused c.shown)
        | inr a ↦ elim (Bool-cases f.aborted) [
          | inl b ↦ rw b (release_other-IsConsistent i s a c)
          | inr b ↦ rw (b, a) (release_other-IsConsistent i s a c)
        ]
      ]
    where
      not_aborted : (o : Option ℕ) → is_id o i ≡ true → IsLive o s → f.aborted ≡ false
      not_aborted none e h = cc
      not_aborted (some j) e (same, (k, key, live)) = ground arith

  -- Every load, answer, failure and clear keeps the store consistent: the active request is on its way,
  -- not aborted, and bears the active key; `loading` is set only while there is one; and the payload
  -- that is shown answers the query of `lastQueryKey`.
  pub Step-IsConsistent : {s t : State R} → Step s t → IsConsistent s → IsConsistent t
  unfolding load_usage_stats clear_usage_stats
  Step-IsConsistent (load options now s) c = load_key-IsConsistent _ _ s c
  Step-IsConsistent (answer i f r now s flies e) c =
      on_response-IsConsistent i f.query_key r now s e c
  Step-IsConsistent (fail i f failure s flies) c = on_failure-IsConsistent i f failure s flies c
  Step-IsConsistent (clear s) c = record {
    live = same s.active_request_controller c.live;
    busy = λ e. cc;
    unused = c.unused;
    shown = tt;
  }
    where
      same : (o : Option ℕ) → IsLive o s → IsLive o (clear_usage_stats s)
      same none h = h
      same (some j) h = h

  -- Whatever loads, responses, failures and clears happen, in whatever order, the state is consistent:
  -- the active request and its controller are one request, which is on its way for the active key and
  -- not aborted; a store that loads has one; numbers from `next` on are unused; and a payload that is
  -- kept answers the query under which it is kept.
  pub Reach-IsConsistent : {s : State R} → Reach s → IsConsistent s
  Reach-IsConsistent here = initial-IsConsistent
  Reach-IsConsistent (next r st) = Step-IsConsistent st (Reach-IsConsistent r)
