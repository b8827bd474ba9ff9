-- ===== src/Page/Sync/Laws.antt =====
-- A manual sync, whatever its three calls do.
use daili_usage_keeper_north.Base.{
  ◌≡◌, refl, ap, String, true, false, Option, some, if◌then◌else◌, Bool-cases, inl, inr,
}
use daili_usage_keeper_north.Store.{Failure}
use daili_usage_keeper_north.Page.Loader.{is_auth_error, text_of}
use daili_usage_keeper_north.Page.Sync.{
  CallOutcome, returned, thrown, Action, on_status, try_sync, sync_cpa_data, Buttons, after_call,
  handle_manual_sync,
}

module _ {W S : Type 0} (trigger_backend_sync : Action W S) (refresh_active_tab : Action W Unit)
    (refresh_status : Action W S) where
  -- The calls one after another, up to the first that fails, and what the last of them comes to.
  pub data Calls : W → W → CallOutcome S → Type 0 where
    not_synced :
        (w w' : W) (e : Failure) → trigger_backend_sync w ≡ (w', thrown e) → Calls w w' (thrown e)
    not_refreshed :
        (w w1 w' : W) (s : S) (e : Failure)
        → trigger_backend_sync w ≡ (w1, returned s)
        → refresh_active_tab w1 ≡ (w', thrown e)
        → Calls w w' (thrown e)
    asked :
        (w w1 w2 w' : W) (s : S) (o : CallOutcome S)
        → trigger_backend_sync w ≡ (w1, returned s)
        → refresh_active_tab w1 ≡ (w2, returned tt)
        → refresh_status w2 ≡ (w', o)
        → Calls w w' o

  -- The status after a call that may fail.
  abbrev pub status_after : Option S → W × CallOutcome S → W × Option S
  status_after old (w, returned s) = (w, some s)
  status_after old (w, thrown e) = (w, old)

  -- What the page is left with when the calls came to this in the state `w`.
  abbrev pub left : String → W → Option S → Buttons → CallOutcome S → (W × Option S) × Buttons
  left refresh_failed w old b (returned s) =
      ((w, some s), record b { loading = false; status_error = "" })
  left refresh_failed w old b (thrown e) =
      if is_auth_error e then ((w, old), record b { loading = false; auth_required = true }) else (
        status_after old (refresh_status w),
        record b { loading = false; status_error = text_of refresh_failed e },
      )

  status_lem : (old : Option S) (r : W × CallOutcome S) → (on_status old r).0 ≡ status_after old r
  status_lem old (w, returned s) = refl
  status_lem old (w, thrown e) = refl

  tried :
      {w w' : W} {o : CallOutcome S}
      → Calls w w' o
      → (old : Option S)
      → try_sync trigger_backend_sync refresh_active_tab refresh_status (w, old)
        ≡ on_status old (w', o)
  unfolding try_sync
  tried (not_synced w w' e h) old = rw h refl
  tried (not_refreshed w w1 w' s e h k) old = rw (h, k) refl
  tried (asked w w1 w2 w' s o h k l) old = rw (h, k, l) refl

  -- Whichever of the three calls fails first, its failure is the one that is shown (or leads to the login,
  -- for a 401), the status is loaded once more unless it was a 401, and a failure of that is ignored; when
  -- all come through, the new status is shown and the error is cleared. The spinner stops in every case.
  pub handle_manual_sync_lem :
      (w w' : W) (o : CallOutcome S) (refresh_failed : String) (old : Option S) (b : Buttons)
      → Calls w w' o
      → handle_manual_sync trigger_backend_sync refresh_active_tab refresh_status refresh_failed
          ((w, old), b)
        ≡ left refresh_failed w' old b o
  unfolding handle_manual_sync sync_cpa_data after_call
  handle_manual_sync_lem w w' (returned s) refresh_failed old b c = rw (tried c old) refl
  handle_manual_sync_lem w w' (thrown e) refresh_failed old b c =
      rw (tried c old) (elim (Bool-cases (is_auth_error e)) [
        | inl a ↦ rw (a, a) refl
        | inr a ↦
            rw (a, a)
              (ap (λ t. (t, record b { loading = false; status_error = text_of refresh_failed e }))
                (status_lem old (refresh_status w')))
      ])
