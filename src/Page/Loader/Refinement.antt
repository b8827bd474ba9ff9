-- ===== src/Page/Loader/Refinement.antt =====
-- The loader does what its specification, Page/Loader/Latest, says.
use daili_usage_keeper_north.Base.{
  ℕ, ◌≡◌, refl, ap, sym, subst, ==_iff, ◌∙◌, true, false, Option, none, some, List, [], ◌∷◌,
  is_some, if◌then◌else◌, ◌==◌, arith, Bool-cases, Option-cases, inl, inr,
}
use daili_usage_keeper_north.Store.{Failure, is_id}
use daili_usage_keeper_north.Page.Loader.{
  Loader, Pending, Panel, load, refuse, leave, clean_up, start, enter, finish, receive,
  receive_failure, first_panel, is_auth_error, text_of,
}
use daili_usage_keeper_north.Page.Loader.Invariant.{
  IsConsistent, is_on_way, Step, Step-IsConsistent, first_panel-IsConsistent,
}
use daili_usage_keeper_north.Page.Loader.Latest.{
  PanelEvent, entered, answered, broke, View, on_latest, step, run, specified, specified_run,
  latest, view_of,
}

controller_waiting :
    {Q : Type 0} (o : Option ℕ) (flights : ℕ → Option (Pending Q))
    → ((i : ℕ) → is_on_way (flights i) ≡ is_id o i)
    → is_some o ≡ is_some (latest o flights)
controller_waiting none flights h = refl
controller_waiting (some c) flights h = elim (Option-cases (flights c)) [
  | inl e ↦ ground (arith, h c)
  | inr (f, e) ↦ rw e refl
]

module _ {Q D : Type 0} (i : ℕ) (p : Panel Q D) where
  latest_other :
      (o : Option ℕ) (flights : ℕ → Option (Pending Q)) (f : Q → View Q D) (v : View Q D)
      → is_id o i ≡ false
      → on_latest i (latest o flights) f v ≡ v
  latest_other none flights f v e = refl
  latest_other (some c) flights f v e = elim (Option-cases (flights c)) [
    | inl h ↦ rw h refl
    | inr (g, h) ↦ rw (h, e) refl
  ]

  latest_current :
      (o : Option ℕ) (flights : ℕ → Option (Pending Q)) (g : Pending Q) (f : Q → View Q D)
      (v : View Q D)
      → is_id o i ≡ true
      → flights i ≡ some g
      → on_latest i (latest o flights) f v ≡ f g.query
  latest_current none flights g f v e h = ground arith
  latest_current (some c) flights g f v e h =
      let k : flights c ≡ some g = subst (λ j. flights j ≡ some g) (sym ((==_iff c i).0 e)) h in
      rw (k, e) refl

  -- The request on its way that the controller stands for stays so when another one settles.
  latest_kept :
      (o : Option ℕ) (flights : ℕ → Option (Pending Q))
      → is_id o i ≡ false
      → latest o (λ j. if i == j then none else flights j) ≡ latest o flights
  latest_kept none flights e = refl
  latest_kept (some c) flights e = let k : (i == c) ≡ false = ground arith in rw k refl

  view_other : is_id p.controller i ≡ false → view_of (finish i p) ≡ view_of p
  unfolding finish
  view_other e =
      rw e (ap (λ w. record (view_of p) { waiting = w }) (latest_kept p.controller p.flights e))

  view_current :
      is_id p.controller i ≡ true → view_of (finish i p) ≡ record (view_of p) { waiting = none }
  unfolding finish
  view_current e = rw e refl

module _ {Q R D : Type 0} (L : Loader Q R D) (i : ℕ) (p : Panel Q D) (c : IsConsistent p) where
  answered-specified :
      (r : R) → view_of (step L (answered i r) p) ≡ specified L (answered i r) (view_of p)
  unfolding receive
  answered-specified r = elim (Option-cases (p.flights i)) [
    | inl h ↦
        let k : is_id p.controller i ≡ false = ground (arith, c.current i) in
        rw h (sym (latest_other i p p.controller p.flights _ (view_of p) k))
    | inr (f, h) ↦ elim (Bool-cases (is_id p.controller i)) [
      | inl k ↦
          rw (h, k)
            (view_current i (record p { shown = L.accepted f.query r p.shown }) k
              ∙ sym (latest_current i p p.controller p.flights f _ (view_of p) k h))
      | inr k ↦
          rw (h, k)
            (view_other i p k ∙ sym (latest_other i p p.controller p.flights _ (view_of p) k))
    ]
  ]

  broke-specified :
      (e : Failure) → view_of (step L (broke i e) p) ≡ specified L (broke i e) (view_of p)
  unfolding receive_failure
  broke-specified e = elim (Option-cases (p.flights i)) [
    | inl h ↦
        let k : is_id p.controller i ≡ false = ground (arith, c.current i) in
        rw h (sym (latest_other i p p.controller p.flights _ (view_of p) k))
    | inr (f, h) ↦ elim (Bool-cases f.aborted) [
      | inl a ↦
          let k : is_id p.controller i ≡ false = ground (arith, c.current i) in
          rw (h, a)
            (view_other i p k ∙ sym (latest_other i p p.controller p.flights _ (view_of p) k))
      | inr a ↦
          let k : is_id p.controller i ≡ true = ground (arith, c.current i) in
          rw (h, a, k)
            (elim (Bool-cases (is_auth_error e)) [
              | inl b ↦ rw b (
                  view_current i
                    (record p {
                      shown = L.failed_any e (L.failed_current p.shown);
                      auth_required = true;
                    })
                    k
                  ∙ sym (latest_current i p p.controller p.flights f _ (view_of p) k h))
              | inr b ↦ rw b (
                  view_current i
                    (record p {
                      shown = L.failed_any e (L.failed_current p.shown);
                      error = text_of L.fallback e;
                    })
                    k
                  ∙ sym (latest_current i p p.controller p.flights f _ (view_of p) k h))
            ])
    ]
  ]

module _ {Q R D : Type 0} (L : Loader Q R D) where
  step-specified :
      (e : PanelEvent Q R) (p : Panel Q D)
      → IsConsistent p
      → view_of (step L e p) ≡ specified L e (view_of p)
  unfolding enter start clean_up
  step-specified (entered (load q)) p c = ground arith
  step-specified (entered refuse) p c = refl
  step-specified (entered leave) p c = refl
  step-specified (answered i r) p c = answered-specified L i p c r
  step-specified (broke i e) p c = broke-specified L i p c e

  step-IsConsistent :
      (e : PanelEvent Q R) (p : Panel Q D) → IsConsistent p → IsConsistent (step L e p)
  step-IsConsistent (entered entry) p c = Step-IsConsistent L (Step.reruns entry p) c
  step-IsConsistent (answered i r) p c = elim (Option-cases (p.flights i)) [
    | inl h ↦ rw h c
    | inr (f, h) ↦ rw h (Step-IsConsistent L (Step.answers i f r p h) c)
  ]
  step-IsConsistent (broke i e) p c = elim (Option-cases (p.flights i)) [
    | inl h ↦ rw h c
    | inr (f, h) ↦ rw h (Step-IsConsistent L (Step.fails i f e p h) c)
  ]

  run-specified :
      (es : List (PanelEvent Q R)) (p : Panel Q D)
      → IsConsistent p
      → view_of (run L es p) ≡ specified_run L es (view_of p)
  run-specified [] p c = refl
  run-specified (e ∷ es) p c =
      run-specified es (step L e p) (step-IsConsistent e p c)
      ∙ ap (λ v. specified_run L es v) (step-specified e p c)

  busy_waiting : (p : Panel Q D) → IsConsistent p → p.loading ≡ is_some (view_of p).waiting
  busy_waiting p c = c.busy ∙ controller_waiting p.controller p.flights c.current

  run-IsConsistent :
      (es : List (PanelEvent Q R)) (p : Panel Q D) → IsConsistent p → IsConsistent (run L es p)
  run-IsConsistent [] p c = c
  run-IsConsistent (e ∷ es) p c = run-IsConsistent es (step L e p) (step-IsConsistent e p c)

  -- The loader does what the specification says, for any sequence of entries, answers and failures: what
  -- is shown is what the latest request brings, whatever is given up and whenever it settles, and the
  -- spinner turns just while the latest request is on its way.
  pub loader_refines :
      (es : List (PanelEvent Q R)) (d : D)
      → (view_of (run L es (first_panel d)) ≡ specified_run L es (view_of (first_panel d)))
        × ((run L es (first_panel d)).loading
            ≡ is_some (specified_run L es (view_of (first_panel d))).waiting)
  loader_refines es d =
      let c : IsConsistent (first_panel d) = first_panel-IsConsistent d in
      let e = run-specified es (first_panel d) c in
      (
        e,
        busy_waiting (run L es (first_panel d)) (run-IsConsistent es (first_panel d) c)
            ∙ ap (λ v. is_some v.waiting) e,
      )
