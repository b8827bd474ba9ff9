-- ===== src/Page/Loader/Invariant.antt =====
-- What holds of a loader's panel after any sequence of its steps.
use daili_usage_keeper_north.Base.{
  ℕ, ◌≤◌, ◌≡◌, refl, String, Bool, true, false, Option, none, some, is_some, if◌then◌else◌, arith,
  Bool-cases, inl, inr,
}
use daili_usage_keeper_north.Store.{Failure, is_id}
use daili_usage_keeper_north.Page.Loader.{
  Loader, Pending, Panel, Entry, load, refuse, leave, abort_current, clean_up, start, enter, rerun,
  finish, receive, receive_failure, first_panel, is_auth_error, text_of,
}

abbrev pub is_on_way : {Q : Type 0} → Option (Pending Q) → Bool
is_on_way none = false
is_on_way (some f) = if f.aborted then false else true

module _ {Q D : Type 0} where
  -- The requests that are not aborted are the one that the controller stands for; the spinner turns just
  -- while there is one, and shows no error meanwhile.
  pub record IsConsistent (p : Panel Q D) : Type 0 where
    pub current : (i : ℕ) → is_on_way (p.flights i) ≡ is_id p.controller i
    pub busy : p.loading ≡ is_some p.controller
    pub quiet : p.loading ≡ true → p.error ≡ ""
    pub unused : (i : ℕ) → p.next ≤ i → p.flights i ≡ none

  pub first_panel-IsConsistent : (d : D) → IsConsistent (first_panel d)
  unfolding first_panel
  first_panel-IsConsistent d = record {
    current = λ i. refl;
    busy = refl;
    quiet = λ e. refl;
    unused = λ i h. refl;
  }

  module _ (p : Panel Q D) (c : IsConsistent p) where
    none_current : (i : ℕ) → is_on_way (abort_current p.controller p.flights i) ≡ false
    none_current i = ground (arith, c.current i)

    aborted_unused : (i : ℕ) → p.next ≤ i → abort_current p.controller p.flights i ≡ none
    aborted_unused i h = ground (arith, c.unused i h)

    module _ (i : ℕ) where
      -- A request that is not current settles.
      finish_other-IsConsistent : is_id p.controller i ≡ false → IsConsistent (finish i p)
      unfolding finish
      finish_other-IsConsistent e = rw e record {
        current = λ j. ground (arith, c.current j);
        busy = c.busy;
        quiet = c.quiet;
        unused = λ j h. ground (arith, c.unused j h);
      }

      -- The current request settles, whatever else is set.
      finish_current-IsConsistent :
          (shown : D) (error : String) (auth : Bool)
          → is_id p.controller i ≡ true
          → IsConsistent
              (finish i (record p { shown = shown; error = error; auth_required = auth }))
      unfolding finish
      finish_current-IsConsistent shown error auth e = rw e record {
        current = λ j. ground (arith, c.current j);
        busy = refl;
        quiet = λ h. ground arith;
        unused = λ j h. ground (arith, c.unused j h);
      }

      finish-IsConsistent : IsConsistent (finish i p)
      finish-IsConsistent = elim (Bool-cases (is_id p.controller i)) [
        | inl e ↦ finish_current-IsConsistent p.shown p.error p.auth_required e
        | inr e ↦ finish_other-IsConsistent e
      ]

module _ {Q R D : Type 0} (L : Loader Q R D) where
  start-IsConsistent : (q : Q) (p : Panel Q D) → IsConsistent p → IsConsistent (start L q p)
  unfolding start
  start-IsConsistent q p c = record {
    current = λ i. ground (arith, none_current p c i);
    busy = refl;
    quiet = λ e. refl;
    unused = λ i h. ground (arith, aborted_unused p c i);
  }

  enter-IsConsistent :
      (entry : Entry Q) (p : Panel Q D) → IsConsistent p → IsConsistent (enter L entry p)
  unfolding enter clean_up
  enter-IsConsistent (load q) p c = start-IsConsistent q p c
  enter-IsConsistent refuse p c = record {
    current = none_current p c;
    busy = refl;
    quiet = λ e. refl;
    unused = aborted_unused p c;
  }
  enter-IsConsistent leave p c = record {
    current = none_current p c;
    busy = refl;
    quiet = λ e. ground arith;
    unused = aborted_unused p c;
  }

  receive-IsConsistent :
      (i : ℕ) (q : Q) (r : R) (p : Panel Q D) → IsConsistent p → IsConsistent (receive L i q r p)
  unfolding receive
  receive-IsConsistent i q r p c = elim (Bool-cases (is_id p.controller i)) [
    | inl e ↦
        rw e (finish_current-IsConsistent p c i (L.accepted q r p.shown) p.error p.auth_required e)
    | inr e ↦ rw e (finish_other-IsConsistent p c i e)
  ]

  receive_failure-IsConsistent :
      (i : ℕ) (f : Pending Q) (failure : Failure) (p : Panel Q D)
      → IsConsistent p
      → p.flights i ≡ some f
      → IsConsistent (receive_failure L i f.aborted failure p)
  unfolding receive_failure
  receive_failure-IsConsistent i f failure p c h = elim (Bool-cases f.aborted) [
    | inl e ↦ rw e (finish-IsConsistent p c i)
    | inr e ↦
        let k : is_id p.controller i ≡ true = ground (arith, c.current i) in
        rw (e, k)
          (elim (Bool-cases (is_auth_error failure)) [
            | inl a ↦ rw a (finish_current-IsConsistent p c i _ p.error true k)
            | inr a ↦
                rw a (
                  finish_current-IsConsistent p c i _ (text_of L.fallback failure) p.auth_required
                    k)
          ])
  ]

  -- A step is one call of the loader, one run of the effect, or an answer to or a failure of a request
  -- that is on its way.
  pub data Step : Panel Q D → Panel Q D → Type 0 where
    enters : (entry : Entry Q) (p : Panel Q D) → Step p (enter L entry p)
    reruns : (entry : Entry Q) (p : Panel Q D) → Step p (rerun L entry p)
    answers :
        (i : ℕ) (f : Pending Q) (r : R) (p : Panel Q D)
        → p.flights i ≡ some f
        → Step p (receive L i f.query r p)
    fails :
        (i : ℕ) (f : Pending Q) (failure : Failure) (p : Panel Q D)
        → p.flights i ≡ some f
        → Step p (receive_failure L i f.aborted failure p)

  pub data Reach (d : D) : Panel Q D → Type 0 where
    here : Reach d (first_panel d)
    next : {p p' : Panel Q D} → Reach d p → Step p p' → Reach d p'

  -- What the effect's clean-up does is done by each of the entries too.
  pub rerun-enter : (entry : Entry Q) (p : Panel Q D) → rerun L entry p ≡ enter L entry p
  unfolding enter start clean_up
  rerun-enter (load q) p = refl
  rerun-enter refuse p = refl
  rerun-enter leave p = refl

  pub Step-IsConsistent : {p p' : Panel Q D} → Step p p' → IsConsistent p → IsConsistent p'
  Step-IsConsistent (enters entry p) c = enter-IsConsistent entry p c
  Step-IsConsistent (reruns entry p) c = rw (rerun-enter entry p) (enter-IsConsistent entry p c)
  Step-IsConsistent (answers i f r p h) c = receive-IsConsistent i f.query r p c
  Step-IsConsistent (fails i f failure p h) c = receive_failure-IsConsistent i f failure p c h

  -- Whatever loads, changes of tab, answers and failures came, in whatever order: the only request that
  -- is not aborted is the one of the controller, the spinner turns just while there is one, and no error
  -- is shown meanwhile.
  pub Panel-Reach : {d : D} {p : Panel Q D} → Reach d p → IsConsistent p
  Panel-Reach here = first_panel-IsConsistent _
  Panel-Reach (next r s) = Step-IsConsistent s (Panel-Reach r)
