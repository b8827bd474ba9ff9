-- ===== src/Ui/Dialog.antt =====
-- The dialog of web/src/components/ui/Modal.tsx: how it opens and closes with its animation. The
-- timers of the browser that can still fire are listed in `live`, each with `notifyParent`. A change of
-- the state runs to the end of the render and of the effects that follow it.
pub mod Laws
pub mod Focus
pub mod Tests
use daili_usage_keeper_north.Base.{
  ℕ, ◌+◌, Bool, true, false, not, ◌||◌, Option, none, some, is_some, List, [], ◌∷◌, if◌then◌else◌,
  filter, ◌==◌,
}

-- What the effect has queued: the microtask that shows the dialog, or the one that closes it.
pub data Task : Type 0 where
  show close : Task

pub record Dialog : Type 0 where
  -- The property `open`, which the parent sets.
  pub open_prop : Bool
  pub is_visible : Bool
  pub is_closing : Bool
  pub close_timer : Option ℕ
  pub live : List (ℕ × Bool)
  pub next : ℕ
  -- The microtask of the last run of the effect; those of earlier runs are `cancelled`.
  pub queued : Option Task
  -- How often `onClose` was called.
  pub told : ℕ

abbrev pub first_dialog : Dialog
first_dialog = record {
  open_prop = false;
  is_visible = false;
  is_closing = false;
  close_timer = none;
  live = [];
  next = 0;
  queued = none;
  told = 0;
}

-- `window.clearTimeout`
abbrev pub clear_timeout : ℕ → List (ℕ × Bool) → List (ℕ × Bool)
clear_timeout t live = filter (λ e. not (e.0 == t)) live

unfoldable pub start_close : Bool → Dialog → Dialog
start_close notify_parent d = if is_some d.close_timer then d else record d {
  is_closing = true;
  close_timer = some d.next;
  live = (d.next, notify_parent) ∷ d.live;
  next = d.next + 1;
}

unfoldable pub stop_close_timer : Dialog → Dialog
stop_close_timer d = elim d.close_timer [
  | none ↦ d
  | some t ↦ record d { close_timer = none; live = clear_timeout t d.live }
]

-- The effect on `[open, isVisible, startClose]`, after the cleanup of its last run.
unfoldable pub run_effect : Dialog → Dialog
unfolding stop_close_timer
run_effect d =
    if d.open_prop
    then record (stop_close_timer d) { queued = some show }
    else record d { queued = if d.is_visible then some close else none }

-- `Object.is` on two Boolean dependencies.
abbrev pub differs : Bool → Bool → Bool
differs true b = not b
differs false b = b

-- The effect runs again if one of its dependencies is not what it was in `old`.
unfoldable pub after_render : Dialog → Bool → Dialog → Dialog
unfolding run_effect
after_render old new_start_close d =
    if differs old.open_prop d.open_prop || differs old.is_visible d.is_visible || new_start_close
    then run_effect d
    else d

-- The parent renders the dialog; `startClose` is new when `onClose` is.
unfoldable pub render : Bool → Bool → Dialog → Dialog
unfolding after_render
render open_prop new_on_close d = after_render d new_on_close (record d { open_prop = open_prop })

unfoldable pub run_task : Option Task → Dialog → Dialog
unfolding after_render start_close
run_task none d = d
run_task (some show) d = after_render d false (record d { is_visible = true; is_closing = false })
run_task (some close) d = start_close false d

-- The microtask that is queued runs.
unfoldable pub run_microtask : Dialog → Dialog
unfolding run_task
run_microtask d = run_task d.queued (record d { queued = none })

-- The callback of `startClose`, which calls `onClose` if it is to notify the parent; `open_prop` is
-- what the parent has made of it when the dialog is rendered again.
unfoldable pub close_now : Bool → Bool → Dialog → Dialog
unfolding after_render
close_now notify_parent open_prop d = after_render d false (record d {
  is_visible = false;
  is_closing = false;
  close_timer = none;
  told = if notify_parent then d.told + 1 else d.told;
  open_prop = if notify_parent then open_prop else d.open_prop;
})

abbrev pub find_timer : ℕ → List (ℕ × Bool) → Option Bool
find_timer t [] = none
find_timer t ((i, notify) ∷ live) = if i == t then some notify else find_timer t live

-- The timer of a number fires, if it is running.
unfoldable pub fire : ℕ → Bool → Dialog → Dialog
unfolding close_now
fire t open_prop d = elim (find_timer t d.live) [
  | none ↦ d
  | some notify ↦ close_now notify open_prop (record d { live = clear_timeout t d.live })
]

-- `handleClose`, by the button that is there while the dialog is rendered, or by Escape.
unfoldable pub handle_close : Dialog → Dialog
unfolding start_close
handle_close d = if d.open_prop || d.is_visible then start_close true d else d

-- The dialog is unmounted: both effects are cleaned up.
unfoldable pub unmount : Dialog → Dialog
unmount d = record d {
  queued = none;
  live = elim d.close_timer [ none ↦ d.live | some t ↦ clear_timeout t d.live ];
}
