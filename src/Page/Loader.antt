-- ===== src/Page/Loader.antt =====
-- The loaders of the tabs, which `loadAnalysis`, `loadEvents` and `loadCredentials` of
-- web/src/pages/UsagePage.tsx and `loadPricing` of usePricingData.ts write out four times: one request
-- at a time with its `AbortController`, and the effects that start and stop it. An `await` ends a step.
pub mod Invariant
pub mod Latest
pub mod Refinement
pub mod Tabs
pub mod Tests
use daili_usage_keeper_north.Base.{
  ℕ, ◌+◌, String, Bool, true, false, Option, none, some, if◌then◌else◌, ◌==◌,
}
use daili_usage_keeper_north.Store.{Failure, api_error, plain_error, no_error, is_id}

-- What one loader does with its data, of the type D. A request asks a query Q and is answered by an R.
pub record Loader (Q R D : Type 0) : Type 0 where
  -- What is set before the request is made.
  pub started : D → D
  -- What is set where no request can be made.
  pub emptied : D → D
  -- What is set from a response, with the values that the closure of the request holds.
  pub accepted : Q → R → D → D
  -- What is set when the current request fails, and when any request fails that is not aborted.
  pub failed_current : D → D
  pub failed_any : Failure → D → D
  -- The text shown for a failure that is no `Error`.
  pub fallback : String

-- A request on its way, and `controller.signal.aborted`.
pub record Pending (Q : Type 0) : Type 0 where
  pub query : Q
  pub aborted : Bool

-- Requests and their controllers are numbered; `next` is the next number.
pub record Panel (Q D : Type 0) : Type 0 where
  pub shown : D
  pub loading : Bool
  pub error : String
  -- The `…RequestControllerRef`.
  pub controller : Option ℕ
  pub flights : ℕ → Option (Pending Q)
  pub next : ℕ
  -- Whether `onAuthRequired` was called.
  pub auth_required : Bool

-- How an effect, or `refreshActiveTab`, comes in: a query to load, a range that cannot be asked for,
-- or (for the effect) another tab.
pub data Entry (Q : Type 0) : Type 0 where
  load : Q → Entry Q
  refuse : Entry Q
  leave : Entry Q

-- `error instanceof ApiError && error.status === 401`
abbrev pub is_auth_error : Failure → Bool
is_auth_error (api_error status message) = status == 401
is_auth_error (plain_error message) = false
is_auth_error no_error = false

-- `error instanceof Error ? error.message : fallback`
abbrev pub text_of : String → Failure → String
text_of fallback (api_error status message) = message
text_of fallback (plain_error message) = message
text_of fallback no_error = fallback

module _ {Q : Type 0} where
  abbrev pub with_abort : Option (Pending Q) → Option (Pending Q)
  with_abort none = none
  with_abort (some f) = some (record f { aborted = true })

  -- `controllerRef.current?.abort()`
  abbrev pub abort_current : Option ℕ → (ℕ → Option (Pending Q)) → ℕ → Option (Pending Q)
  abort_current none flights i = flights i
  abort_current (some c) flights i = if c == i then with_abort (flights i) else flights i

module _ {Q D : Type 0} where
  unfoldable pub clean_up : Panel Q D → Panel Q D
  clean_up p = record p { controller = none; flights = abort_current p.controller p.flights }

  -- The `finally` block; the request has settled and is no longer on its way.
  unfoldable pub finish : ℕ → Panel Q D → Panel Q D
  finish i p =
      let flights : ℕ → Option (Pending Q) = λ j. if i == j then none else p.flights j in
      if is_id p.controller i
      then record p { loading = false; controller = none; flights = flights }
      else record p { flights = flights }

  unfoldable pub first_panel : D → Panel Q D
  first_panel shown = record {
    shown = shown;
    loading = false;
    error = "";
    controller = none;
    flights = λ i. none;
    next = 0;
    auth_required = false;
  }

module _ {Q R D : Type 0} (L : Loader Q R D) where
  unfoldable pub start : Q → Panel Q D → Panel Q D
  start query p = record p {
    shown = L.started p.shown;
    loading = true;
    error = "";
    controller = some p.next;
    flights = λ i.
        if p.next == i
        then some (record { query = query; aborted = false })
        else abort_current p.controller p.flights i;
    next = p.next + 1;
  }

  unfoldable pub enter : Entry Q → Panel Q D → Panel Q D
  unfolding start clean_up
  enter (load query) p = start query p
  enter refuse p = record (clean_up p) { shown = L.emptied p.shown; loading = false; error = "" }
  enter leave p = record (clean_up p) { loading = false }

  -- The effect runs again: React first calls what its last run returned.
  abbrev pub rerun : Entry Q → Panel Q D → Panel Q D
  rerun entry p = enter entry (clean_up p)

  -- After the `await`, with a response.
  unfoldable pub receive : ℕ → Q → R → Panel Q D → Panel Q D
  unfolding finish
  receive i query response p =
      finish i
        (if is_id p.controller i then record p { shown = L.accepted query response p.shown } else p)

  -- The `catch` block; `aborted` is the signal of the request's own controller.
  unfoldable pub receive_failure : ℕ → Bool → Failure → Panel Q D → Panel Q D
  unfolding finish
  receive_failure i aborted failure p = finish i (
      if aborted
      then p
      else let shown = if is_id p.controller i then L.failed_current p.shown else p.shown in
        let dropped = record p { shown = L.failed_any failure shown } in
        if is_auth_error failure
        then record dropped { auth_required = true }
        else record dropped { error = text_of L.fallback failure })

  -- A request settles, if it is on its way.
  abbrev pub settle_response : ℕ → R → Option (Pending Q) → Panel Q D → Panel Q D
  settle_response i response none p = p
  settle_response i response (some f) p = receive i f.query response p

  abbrev pub settle_failure : ℕ → Failure → Option (Pending Q) → Panel Q D → Panel Q D
  settle_failure i failure none p = p
  settle_failure i failure (some f) p = receive_failure i f.aborted failure p
