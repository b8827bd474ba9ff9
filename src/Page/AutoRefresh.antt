-- ===== src/Page/AutoRefresh.antt =====
-- `scheduleOverviewAutoRefresh` of web/src/pages/UsagePage.tsx: a timer that runs while the page can
-- be seen. The browser's intervals are listed in `live`; an event runs to its end before the next.
pub mod Laws
use daili_usage_keeper_north.Base.{
  ℕ, ◌+◌, Bool, true, false, not, Option, none, some, List, [], ◌∷◌, if◌then◌else◌, filter, any,
  ◌==◌,
}

pub record Watch : Type 0 where
  -- `documentRef.visibilityState !== 'hidden'`
  pub visible : Bool
  pub timer : Option ℕ
  -- The intervals that the browser runs, and the number that it gives to the next.
  pub live : List ℕ
  pub next : ℕ
  -- Whether `handleVisibilityChange` is registered.
  pub listening : Bool
  -- How often `refreshOverview` was called.
  pub refreshes : ℕ

-- `clearInterval`
abbrev pub clear_interval : ℕ → List ℕ → List ℕ
clear_interval t live = filter (λ i. not (i == t)) live

unfoldable pub stop_timer : Watch → Watch
stop_timer w = elim w.timer [
  | none ↦ w
  | some t ↦ record w { timer = none; live = clear_interval t w.live }
]

unfoldable pub start_timer : Watch → Watch
start_timer w = elim w.timer [
  | none ↦ record w { timer = some w.next; live = w.next ∷ w.live; next = w.next + 1 }
  | some t ↦ w
]

abbrev pub refresh : Watch → Watch
refresh w = record w { refreshes = w.refreshes + 1 }

unfoldable pub refresh_if_visible : Watch → Watch
unfolding stop_timer
refresh_if_visible w = if w.visible then refresh w else stop_timer w

unfoldable pub handle_visibility_change : Watch → Watch
unfolding stop_timer start_timer
handle_visibility_change w =
    if w.visible then start_timer (stop_timer (refresh w)) else stop_timer w

-- The call itself, on a page with a document and no timer yet.
unfoldable pub schedule_overview_auto_refresh : Bool → Watch → Watch
unfolding start_timer
schedule_overview_auto_refresh enabled w =
    if enabled
    then (let w' = if w.visible then start_timer w else w in record w' { listening = true })
    else w

-- The function that the call returns.
unfoldable pub cleanup : Watch → Watch
unfolding stop_timer
cleanup w = record (stop_timer w) { listening = false }

-- The page is shown or hidden: the browser tells a listener.
unfoldable pub change_visibility : Bool → Watch → Watch
unfolding handle_visibility_change
change_visibility seen w =
    let w' = record w { visible = seen } in if w.listening then handle_visibility_change w' else w'

-- An interval fires.
unfoldable pub tick : ℕ → Watch → Watch
unfolding refresh_if_visible
tick i w = if any (λ j. j == i) w.live then refresh_if_visible w else w
