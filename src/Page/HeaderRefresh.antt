-- ===== src/Page/HeaderRefresh.antt =====
-- The refresh of the header, web/src/hooks/useHeaderRefresh.ts: `activeHeaderRefreshHandler`, which the
-- effects of the components that use the hook set and reset. A handler is told apart by a number, as
-- `===` does; what it does is the page's. A hook is named by a number too.
pub mod Laws
use daili_usage_keeper_north.Base.{
  ℕ, Bool, true, false, Option, none, some, List, [], ◌∷◌, if◌then◌else◌, ◌==◌, filter, not,
}

-- A hook whose component is mounted: `lastHandlerRef.current`, and the handler that the cleanup of its
-- last effect resets; `none` if that effect returned no cleanup.
pub record HeaderHook : Type 0 where
  pub last_handler : Option ℕ
  pub cleanup : Option ℕ

-- `activeHeaderRefreshHandler === handler`
abbrev pub is_active : Option ℕ → ℕ → Bool
is_active none handler = false
is_active (some active) handler = active == handler

abbrev pub reset_if : Option ℕ → Option ℕ → Option ℕ
reset_if none active = active
reset_if (some handler) active = if is_active active handler then none else active

unfoldable pub run_cleanup : HeaderHook → Option ℕ → Option ℕ
run_cleanup hook active = reset_if hook.cleanup active

-- The body of the effect: the handler that is active after it, and the hook.
unfoldable pub run_header_effect : Option ℕ → Bool → HeaderHook → Option ℕ → Option ℕ × HeaderHook
run_header_effect none enabled hook active =
    (reset_if hook.last_handler active, record { last_handler = none; cleanup = none })
run_header_effect (some handler) enabled hook active =
    if enabled
    then (some handler, record { last_handler = some handler; cleanup = some handler })
    else (reset_if hook.last_handler active, record { last_handler = some handler; cleanup = none })

-- `useRef(null)`, before the first effect.
abbrev pub new_hook : HeaderHook
new_hook = record { last_handler = none; cleanup = none }

-- A render with other values: the cleanup of the last effect, then the effect.
unfoldable pub rerender_hook : Option ℕ → Bool → HeaderHook → Option ℕ → Option ℕ × HeaderHook
unfolding run_cleanup run_header_effect
rerender_hook handler enabled hook active =
    run_header_effect handler enabled hook (run_cleanup hook active)

-- `triggerHeaderRefresh`: the handler that is called.
unfoldable pub trigger_header_refresh : Option ℕ → List ℕ
trigger_header_refresh none = []
trigger_header_refresh (some handler) = handler ∷ []
