-- ===== src/Page/Sync.antt =====
-- `syncCpaData`, `handleManualSync` and `handleManualRefresh` of web/src/pages/UsagePage.tsx. The calls
-- that they are given act on the rest of the program, of the type W; S is a status.
pub mod Laws
use daili_usage_keeper_north.Base.{String, Bool, true, false, Option, none, some, if◌then◌else◌}
use daili_usage_keeper_north.Store.{Failure}
use daili_usage_keeper_north.Page.Loader.{is_auth_error, text_of}

-- What an awaited call comes to.
pub data CallOutcome (A : Type 0) : Type 0 where
  returned : A → CallOutcome A
  thrown : Failure → CallOutcome A

abbrev pub Action : Type 0 → Type 0 → Type 0
Action W A = W → W × CallOutcome A

-- `await` in a `try` block: a failure skips the rest.
abbrev pub and_then :
    {W A B : Type 0} → W × CallOutcome A → (A → W → W × CallOutcome B) → W × CallOutcome B
and_then (w, returned a) rest = rest a w
and_then (w, thrown e) rest = (w, thrown e)

module _ {W S : Type 0} where
  -- The state: the rest of the program, and the status that `onStatus` was given.
  abbrev pub on_status : Option S → W × CallOutcome S → (W × Option S) × CallOutcome Unit
  on_status old (w, returned status) = ((w, some status), returned tt)
  on_status old (w, thrown e) = ((w, old), thrown e)

-- The calls, and what `setStatus` holds.
module _ {W S : Type 0} (trigger_backend_sync : Action W S) (refresh_active_tab : Action W Unit)
    (refresh_status : Action W S) where
  unfoldable pub try_sync : W × Option S → (W × Option S) × CallOutcome Unit
  try_sync (w, old) = on_status old (
      and_then (trigger_backend_sync w)
        (λ s w1. and_then (refresh_active_tab w1) (λ u w2. refresh_status w2)))

  -- The `catch` block: the status is loaded once more, its failure is ignored.
  abbrev pub recover : Failure → W × Option S → (W × Option S) × CallOutcome Unit
  recover e (w, old) =
      if is_auth_error e
      then ((w, old), thrown e)
      else ((on_status old (refresh_status w)).0, thrown e)

  abbrev pub or_recover : (W × Option S) × CallOutcome Unit → (W × Option S) × CallOutcome Unit
  or_recover (s, returned u) = (s, returned u)
  or_recover (s, thrown e) = recover e s

  unfoldable pub sync_cpa_data : W × Option S → (W × Option S) × CallOutcome Unit
  unfolding try_sync
  sync_cpa_data s = or_recover (try_sync s)

pub record Buttons : Type 0 where
  pub loading : Bool
  pub status_error : String
  pub auth_required : Bool

-- What follows the awaited call in both handlers; a sync that came through clears the error.
unfoldable pub after_call : String → Bool → CallOutcome Unit → Buttons → Buttons
after_call refresh_failed clears (returned u) b = record b {
  loading = false;
  status_error = (if clears then "" else b.status_error);
}
after_call refresh_failed clears (thrown e) b =
    if is_auth_error e
    then record b { loading = false; auth_required = true }
    else record b { loading = false; status_error = text_of refresh_failed e }

module _ {W S : Type 0} (trigger_backend_sync : Action W S) (refresh_active_tab : Action W Unit)
    (refresh_status : Action W S) (refresh_failed : String) where
  unfoldable pub handle_manual_sync : (W × Option S) × Buttons → (W × Option S) × Buttons
  unfolding sync_cpa_data after_call
  handle_manual_sync (s, b) =
      let r = sync_cpa_data trigger_backend_sync refresh_active_tab refresh_status s in
      (r.0, after_call refresh_failed true r.1 (record b { loading = true }))

-- `refreshPageData` is the call of `refreshActiveTab`.
unfoldable pub handle_manual_refresh :
    {W : Type 0} → Action W Unit → String → W × Buttons → W × Buttons
unfolding after_call
handle_manual_refresh refresh_active_tab refresh_failed (w, b) =
    let r = refresh_active_tab w in
    (r.0, after_call refresh_failed false r.1 (record b { loading = true }))
