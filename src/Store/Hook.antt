-- ===== src/Store/Hook.antt =====
-- web/src/components/usage/hooks/useUsageData.ts: the calls of the overview store that the page makes,
-- and what it does when one of them is rejected.
pub mod Laws
use daili_usage_keeper_north.Base.{
  ℕ, String, Bool, true, false, not, ◌&&◌, ◌||◌, Option, none, some, if◌then◌else◌, is_some, str_eq,
  trim, or_else,
}
use daili_usage_keeper_north.Page.Dates.Text.{match_date}
use daili_usage_keeper_north.Page.Loader.{is_auth_error}
use daili_usage_keeper_north.Page.Sync.{CallOutcome, returned, thrown, Action}
use daili_usage_keeper_north.Store.{Failure, LoadOptions}

pub record UseUsageDataOptions : Type 0 where
  pub range : Option String
  pub custom_start : Option String
  pub custom_end : Option String
  pub enabled : Option Bool

unfoldable pub is_known_range : String → Bool
is_known_range value =
    str_eq value "4h"
    || str_eq value "8h"
    || str_eq value "12h"
    || str_eq value "24h"
    || str_eq value "today"
    || str_eq value "7d"
    || str_eq value "all"
    || str_eq value "custom"

unfoldable pub to_range_query : String → String
unfolding is_known_range
to_range_query value = if is_known_range value then value else "all"

-- `/^\d{4}-\d{2}-\d{2}$/` matches no blank text.
unfoldable pub to_custom_date_param : Option String → Option String
to_custom_date_param none = none
to_custom_date_param (some value) =
    if is_some (match_date (trim value)) then some (trim value) else none

abbrev pub usage_stats_stale_time_ms : ℕ
usage_stats_stale_time_ms = 60_000

unfoldable pub resolved_range : UseUsageDataOptions → String
unfolding to_range_query
resolved_range o = to_range_query (or_else o.range "all")

unfoldable pub request_date : UseUsageDataOptions → Option String → Option String
unfolding resolved_range to_custom_date_param
request_date o given =
    if str_eq (resolved_range o) "custom" then to_custom_date_param given else none

unfoldable pub custom_range_ready : UseUsageDataOptions → Bool
unfolding resolved_range request_date
custom_range_ready o =
    not (str_eq (resolved_range o) "custom")
    || (is_some (request_date o o.custom_start) && is_some (request_date o o.custom_end))

-- What `loadUsageStats` is called with.
unfoldable pub load_options : Bool → UseUsageDataOptions → LoadOptions
unfolding resolved_range request_date
load_options force o = record {
  force = force;
  stale_time_ms = usage_stats_stale_time_ms;
  range = resolved_range o;
  start = request_date o o.custom_start;
  stop = request_date o o.custom_end;
}

-- `loadUsageStats` is given as what it does to the rest of the program, W, and what it comes to.
module _ {W : Type 0} (load_usage_stats : LoadOptions → Action W Unit)
    (on_auth_required : Option (W → W)) where
  -- `if (error instanceof ApiError && error.status === 401) { onAuthRequired?.(); }`
  unfoldable pub on_rejected : Failure → W → W
  on_rejected e w =
      if is_auth_error e then elim on_auth_required [ none ↦ w | some call ↦ call w ] else w

  -- The `catch` block of `loadUsage`.
  abbrev pub rethrow : W × CallOutcome Unit → W × CallOutcome Unit
  rethrow (w, returned u) = (w, returned u)
  rethrow (w, thrown e) = (on_rejected e w, thrown e)

  unfoldable pub load_usage : UseUsageDataOptions → Action W Unit
  unfolding custom_range_ready load_options on_rejected
  load_usage o w =
      if custom_range_ready o
      then rethrow (load_usage_stats (load_options true o) w)
      else (w, returned tt)

  -- `.catch(…)`, after which nothing is thrown.
  abbrev pub caught : W × CallOutcome Unit → W
  caught (w, returned u) = w
  caught (w, thrown e) = on_rejected e w

  -- The effect, to the end of its promise.
  unfoldable pub load_effect : UseUsageDataOptions → W → W
  unfolding custom_range_ready load_options on_rejected
  load_effect o w =
      if not (or_else o.enabled true) || not (custom_range_ready o)
      then w
      else caught (load_usage_stats (load_options false o) w)
