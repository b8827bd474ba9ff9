-- ===== src/Ui/Dialog/Laws.antt =====
-- The dialog over any sequence of events.
use daili_usage_keeper_north.Base.{
  ℕ, ◌+◌, ◌≡◌, Bool, true, false, Option, none, some, is_some, List, [], ◌∷◌, arith, ◌⊎◌,
}
use daili_usage_keeper_north.Ui.Dialog.{
  show, close, Dialog, first_dialog, render, run_microtask, fire, handle_close, start_close,
}

-- The timer that runs is the one that the reference names.
abbrev pub IsOwned : Option ℕ → List (ℕ × Bool) → Type 0
IsOwned none live = live ≡ []
IsOwned (some t) live = (n : Bool) × (live ≡ (t, n) ∷ [])

-- The dialog is on its way to what its parent asks for, and it is not left in its closing animation.
pub record IsOnItsWay (d : Dialog) : Type 0 where
  pub owned : IsOwned d.close_timer d.live
  pub shows : d.queued ≡ some show → d.open_prop ≡ true
  pub opens : d.open_prop ≡ true → (d.is_visible ≡ true) ⊎ (d.queued ≡ some show)
  pub closes :
      d.open_prop ≡ false
      → d.is_visible ≡ true
      → (d.queued ≡ some close) ⊎ (is_some d.close_timer ≡ true)
  pub closing :
      d.is_closing ≡ true
      → d.is_visible ≡ true
      → (is_some d.close_timer ≡ true) ⊎ (is_some d.queued ≡ true)

pub data Step : Dialog → Dialog → Type 0 where
  rendered : (open_prop new_on_close : Bool) (d : Dialog) → Step d (render open_prop new_on_close d)
  task : (d : Dialog) → Step d (run_microtask d)
  fires : (t : ℕ) (open_prop : Bool) (d : Dialog) → Step d (fire t open_prop d)
  close_asked : (d : Dialog) → Step d (handle_close d)

pub data Reach : Dialog → Type 0 where
  mounted : Reach first_dialog
  next : {d e : Dialog} → Reach d → Step d e → Reach e

start_close-IsOnItsWay : (n : Bool) (d : Dialog) → IsOnItsWay d → IsOnItsWay (start_close n d)
unfolding start_close
start_close-IsOnItsWay n d h = ground arith

render-IsOnItsWay :
    (open_prop new_on_close : Bool) (d : Dialog)
    → IsOnItsWay d
    → IsOnItsWay (render open_prop new_on_close d)
unfolding render
render-IsOnItsWay o n d h = ground arith

run_microtask-IsOnItsWay : (d : Dialog) → IsOnItsWay d → IsOnItsWay (run_microtask d)
unfolding run_microtask
run_microtask-IsOnItsWay d h = ground arith

handle_close-IsOnItsWay : (d : Dialog) → IsOnItsWay d → IsOnItsWay (handle_close d)
unfolding handle_close
handle_close-IsOnItsWay d h = ground arith

fire-IsOnItsWay :
    (t : ℕ) (open_prop : Bool) (d : Dialog) → IsOnItsWay d → IsOnItsWay (fire t open_prop d)
unfolding fire
fire-IsOnItsWay t o d h = ground arith

Step-IsOnItsWay : {d e : Dialog} → Step d e → IsOnItsWay d → IsOnItsWay e
Step-IsOnItsWay (rendered o n d) h = render-IsOnItsWay o n d h
Step-IsOnItsWay (task d) h = run_microtask-IsOnItsWay d h
Step-IsOnItsWay (fires t o d) h = fire-IsOnItsWay t o d h
Step-IsOnItsWay (close_asked d) h = handle_close-IsOnItsWay d h

-- Whatever renders, microtasks, timers and clicks come, in whatever order: at most one closing timer
-- runs, and the dialog holds it; a dialog that its parent has opened is visible or about to be shown,
-- one that the parent has closed and that is visible is about to close, or its timer runs; and a
-- visible dialog stands in its closing animation only while a timer or a microtask will end it.
pub Reach-IsOnItsWay : {d : Dialog} → Reach d → IsOnItsWay d
Reach-IsOnItsWay mounted = ground arith
Reach-IsOnItsWay (next r step) = Step-IsOnItsWay step (Reach-IsOnItsWay r)

-- The timer that the dialog holds fires.
abbrev pub fire_own : Bool → Dialog → Dialog
fire_own open_prop d = elim d.close_timer [ none ↦ d | some t ↦ fire t open_prop d ]

settles :
    (d : Dialog)
    → IsOnItsWay d
    → d.open_prop ≡ false
    → let e = fire_own false (run_microtask d) in
      (e.is_visible ≡ false) × (e.open_prop ≡ false) × (e.live ≡ []) × (e.queued ≡ none)
unfolding run_microtask fire
settles d h c = ground arith

-- A reachable dialog that its parent has closed is gone, with nothing left to run, once its microtask
-- and then its timer have run.
pub closed-settles :
    {d : Dialog}
    → Reach d
    → d.open_prop ≡ false
    → let e = fire_own false (run_microtask d) in
      (e.is_visible ≡ false) × (e.open_prop ≡ false) × (e.live ≡ []) × (e.queued ≡ none)
closed-settles {d} r h = settles d (Reach-IsOnItsWay r) h

closes :
    (d : Dialog)
    → IsOnItsWay d
    → d.open_prop ≡ true
    → d.is_visible ≡ true
    → d.close_timer ≡ none
    → let asked = handle_close d in
      let e = fire_own false asked in
      let kept = run_microtask (render true true asked) in
      ((e.told ≡ d.told + 1) × (e.is_visible ≡ false) × (e.open_prop ≡ false))
      × ((kept.told ≡ d.told)
          × (kept.is_visible ≡ true)
          × (kept.is_closing ≡ false)
          × (kept.live ≡ []))
unfolding handle_close fire run_microtask render
closes d h o v n = ground arith

-- In a reachable state with the dialog open, visible and not about to close, `handleClose` and the end
-- of its timer tell the parent once and hide the dialog. But if the parent renders in between with a
-- new `onClose`, the close is lost: the dialog stays, out of its closing animation, with no timer, and
-- the parent is not told.
pub handle_close_lem :
    {d : Dialog}
    → Reach d
    → d.open_prop ≡ true
    → d.is_visible ≡ true
    → d.close_timer ≡ none
    → let asked = handle_close d in
      let e = fire_own false asked in
      let kept = run_microtask (render true true asked) in
      ((e.told ≡ d.told + 1) × (e.is_visible ≡ false) × (e.open_prop ≡ false))
      × ((kept.told ≡ d.told)
          × (kept.is_visible ≡ true)
          × (kept.is_closing ≡ false)
          × (kept.live ≡ []))
handle_close_lem {d} r o v n = closes d (Reach-IsOnItsWay r) o v n
