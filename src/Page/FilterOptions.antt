-- ===== src/Page/FilterOptions.antt =====
-- `loadEventFilterOptions` of web/src/pages/UsagePage.tsx: the models and the sources that the filters of
-- the events offer are loaded once. An `await` ends a step; requests are numbered.
pub mod Laws
pub mod Tests
use daili_usage_keeper_north.Base.{
  ℕ, ◌+◌, String, Bool, true, false, Option, none, some, List, [], ◌∷◌, if◌then◌else◌, ◌==◌,
  or_else, str_eq,
}
use daili_usage_keeper_north.Store.{Failure, is_id}
use daili_usage_keeper_north.Page.Loader.{Pending, abort_current, is_auth_error}

-- S is the type of a source that is offered.
pub record FilterOptions (S : Type 0) : Type 0 where
  pub models : List String
  pub sources : List S
  -- `loadedEventsFilterOptionsKeyRef`
  pub loaded_key : String
  -- `eventsFilterOptionsRequestControllerRef`
  pub controller : Option ℕ
  pub flights : ℕ → Option (Pending Unit)
  pub next : ℕ
  pub auth_required : Bool

pub record OptionsResponse (S : Type 0) : Type 0 where
  pub models : Option (List String)
  pub sources : Option (List S)

abbrev pub options_key : String
options_key = "stable"

module _ {S : Type 0} where
  abbrev pub first_options : FilterOptions S
  first_options = record {
    models = [];
    sources = [];
    loaded_key = "";
    controller = none;
    flights = λ i. none;
    next = 0;
    auth_required = false;
  }

  unfoldable pub load_event_filter_options : FilterOptions S → FilterOptions S
  load_event_filter_options p = if str_eq p.loaded_key options_key then p else record p {
    controller = some p.next;
    flights = λ i.
        if p.next == i
        then some (record { query = tt; aborted = false })
        else abort_current p.controller p.flights i;
    next = p.next + 1;
  }

  -- The `finally` block; the request is no longer on its way.
  unfoldable pub finish_options : ℕ → FilterOptions S → FilterOptions S
  finish_options i p =
      let flights : ℕ → Option (Pending Unit) = λ j. if i == j then none else p.flights j in
      if is_id p.controller i
      then record p { controller = none; flights = flights }
      else record p { flights = flights }

  -- After the `await`, with a response.
  unfoldable pub receive_options : ℕ → OptionsResponse S → FilterOptions S → FilterOptions S
  unfolding finish_options
  receive_options i response p = finish_options i (
      if is_id p.controller i
      then record p {
        models = or_else response.models [];
        sources = or_else response.sources [];
        loaded_key = options_key;
      }
      else p)

  abbrev pub dropped : FilterOptions S → FilterOptions S
  dropped p = record p { models = []; sources = []; loaded_key = "" }

  -- The `catch` block; `aborted` is the signal of the request's own controller.
  unfoldable pub receive_options_failure : ℕ → Bool → Failure → FilterOptions S → FilterOptions S
  unfolding finish_options
  receive_options_failure i aborted failure p = finish_options i (
      if aborted
      then p
      else let p' = if is_id p.controller i then dropped p else p in
        if is_auth_error failure then record p' { auth_required = true } else p')

  -- What the effect does for these options on another tab, and what its cleanup does.
  unfoldable pub leave_options : FilterOptions S → FilterOptions S
  leave_options p = record p { controller = none; flights = abort_current p.controller p.flights }

  -- A request settles, if it is on its way.
  abbrev pub settle_options :
      ℕ → OptionsResponse S → Option (Pending Unit) → FilterOptions S → FilterOptions S
  settle_options i response none p = p
  settle_options i response (some f) p = receive_options i response p

  abbrev pub settle_options_failure :
      ℕ → Failure → Option (Pending Unit) → FilterOptions S → FilterOptions S
  settle_options_failure i failure none p = p
  settle_options_failure i failure (some f) p = receive_options_failure i f.aborted failure p
