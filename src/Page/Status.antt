-- ===== src/Page/Status.antt =====
-- The poll of the status in web/src/pages/UsagePage.tsx: `loadStatus`, called at once and then by an
-- interval, and the cleanup of its effect. S is a status. An `await` ends a step; requests are numbered.
pub mod Laws
pub mod Tests
use daili_usage_keeper_north.Base.{
  ℕ, ◌+◌, String, Bool, true, false, Option, none, some, if◌then◌else◌, ◌==◌,
}
use daili_usage_keeper_north.Store.{Failure}
use daili_usage_keeper_north.Page.Loader.{Pending, abort_current, is_auth_error}

pub record Poll (S : Type 0) : Type 0 where
  pub status : Option S
  pub status_error : String
  -- The variable `controller` of the effect: it keeps the last one.
  pub controller : Option ℕ
  pub flights : ℕ → Option (Pending Unit)
  pub next : ℕ
  -- Whether the interval runs.
  pub running : Bool
  pub auth_required : Bool

abbrev pub poll_interval_ms : ℕ
poll_interval_ms = 30_000

module _ {S : Type 0} where
  unfoldable pub load_status : Poll S → Poll S
  load_status p = record p {
    controller = some p.next;
    flights = λ i.
        if p.next == i
        then some (record { query = tt; aborted = false })
        else abort_current p.controller p.flights i;
    next = p.next + 1;
  }

  -- The effect runs on a page that has no poll.
  unfoldable pub start_poll : Poll S
  unfolding load_status
  start_poll = load_status (record {
    status = none;
    status_error = "";
    controller = none;
    flights = λ i. none;
    next = 0;
    running = true;
    auth_required = false;
  })

  unfoldable pub poll_tick : Poll S → Poll S
  unfolding load_status
  poll_tick p = if p.running then load_status p else p

  unfoldable pub stop_poll : Poll S → Poll S
  stop_poll p = record p { flights = abort_current p.controller p.flights; running = false }

  -- A request that has settled is no longer on its way.
  abbrev pub without_request : ℕ → Poll S → ℕ → Option (Pending Unit)
  without_request i p j = if i == j then none else p.flights j

  -- `last_error` is `status.last_error || ''`.
  unfoldable pub receive_status : (last_error : S → String) → ℕ → S → Poll S → Poll S
  receive_status last_error i status p = record p {
    status = some status;
    status_error = last_error status;
    flights = without_request i p;
  }

  unfoldable pub receive_status_failure : ℕ → Bool → Failure → Poll S → Poll S
  receive_status_failure i aborted failure p =
      let p' = record p { flights = without_request i p } in
      if aborted
      then p'
      else if is_auth_error failure
      then record p' { auth_required = true }
      else p'

  -- A request is answered: `fetch` rejects once its signal is aborted, so that no response comes then.
  abbrev pub settle_status : (S → String) → ℕ → S → Option (Pending Unit) → Poll S → Poll S
  settle_status last_error i status none p = p
  settle_status last_error i status (some f) p =
      if f.aborted then p else receive_status last_error i status p

  abbrev pub settle_status_failure : ℕ → Failure → Option (Pending Unit) → Poll S → Poll S
  settle_status_failure i failure none p = p
  settle_status_failure i failure (some f) p = receive_status_failure i f.aborted failure p
