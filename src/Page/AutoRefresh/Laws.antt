-- ===== src/Page/AutoRefresh/Laws.antt =====
-- The timers of the overview over any sequence of events.
use daili_usage_keeper_north.Base.{
  ℕ, ◌≡◌, Bool, true, false, Option, none, some, is_some, List, [], ◌∷◌, arith, ◌≢◌, if◌then◌else◌,
  inl, inr, Option-cases,
}
use daili_usage_keeper_north.Page.AutoRefresh.{
  Watch, schedule_overview_auto_refresh, cleanup, change_visibility, tick, refresh,
}

abbrev timers_of : Option ℕ → List ℕ
timers_of none = []
timers_of (some t) = t ∷ []

-- A page with no timer and no listener, as it is before the call.
abbrev pub IsIdle : Watch → Type 0
IsIdle w = (w.timer ≡ none) × (w.live ≡ []) × (w.listening ≡ false)

-- The only interval that runs is the one that `timer` names; while the listener is registered it runs
-- just when the page can be seen, and afterwards none does.
pub record IsTimed (w : Watch) : Type 0 where
  pub owned : w.live ≡ timers_of w.timer
  pub runs : is_some w.timer ≡ (if w.listening then w.visible else false)

pub data Step : Watch → Watch → Type 0 where
  fires : (i : ℕ) (w : Watch) → Step w (tick i w)
  shown : (seen : Bool) (w : Watch) → Step w (change_visibility seen w)
  ends : (w : Watch) → Step w (cleanup w)

pub data Reach : Watch → Type 0 where
  called : (w : Watch) → IsIdle w → Reach (schedule_overview_auto_refresh true w)
  next : {v w : Watch} → Reach v → Step v w → Reach w

schedule-IsTimed : (w : Watch) → IsIdle w → IsTimed (schedule_overview_auto_refresh true w)
unfolding schedule_overview_auto_refresh
schedule-IsTimed w h = ground arith

tick-IsTimed : (i : ℕ) (w : Watch) → IsTimed w → IsTimed (tick i w)
unfolding tick
tick-IsTimed i w h = ground arith

change_visibility-IsTimed :
    (seen : Bool) (w : Watch) → IsTimed w → IsTimed (change_visibility seen w)
unfolding change_visibility
change_visibility-IsTimed seen w h = ground arith

cleanup-IsTimed : (w : Watch) → IsTimed w → IsTimed (cleanup w)
unfolding cleanup
cleanup-IsTimed w h = ground arith

-- Whatever happens after the call, in whatever order, at most one interval runs, and it is the one
-- that `timer` names; while the listener is registered it runs just when the page can be seen, and
-- after the cleanup none runs.
pub Reach-IsTimed : {w : Watch} → Reach w → IsTimed w
Reach-IsTimed (called w h) = schedule-IsTimed w h
Reach-IsTimed (next r (fires i w)) = tick-IsTimed i w (Reach-IsTimed r)
Reach-IsTimed (next r (shown seen w)) = change_visibility-IsTimed seen w (Reach-IsTimed r)
Reach-IsTimed (next r (ends w)) = cleanup-IsTimed w (Reach-IsTimed r)

tick-IsTimed-eq :
    (i : ℕ) (w : Watch)
    → IsTimed w
    → (w.timer ≡ some i → tick i w ≡ refresh w) × (w.timer ≢ some i → tick i w ≡ w)
unfolding tick
tick-IsTimed-eq i w h = elim (Option-cases w.timer) [
  | inl none_yet ↦
      let idle : w.live ≡ [] = rw none_yet at h.owned in (λ e. ground arith, λ e. ground arith)
  | inr (t, set) ↦
      let one : w.live ≡ t ∷ [] = rw set at h.owned in (λ e. ground arith, λ e. ground arith)
]

-- In every reachable state the interval that `timer` names refreshes the overview once when it fires,
-- and changes nothing else; any other number, one that was cleared, does nothing.
pub tick-refreshes :
    (i : ℕ) {w : Watch}
    → Reach w
    → (w.timer ≡ some i → tick i w ≡ refresh w) × (w.timer ≢ some i → tick i w ≡ w)
tick-refreshes i {w} r = tick-IsTimed-eq i w (Reach-IsTimed r)
