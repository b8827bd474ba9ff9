-- ===== src/Ui/Dialog/Tests.antt =====
-- The dialog at concrete sequences of events.
use daili_usage_keeper_north.Base.{
  ℕ, zero, suc, ◌+◌, ◌≡◌, ◌≢◌, refl, Bool, true, false, Option, some, List, [], ◌∷◌, get_elem?,
  arith,
}
use daili_usage_keeper_north.Ui.Dialog.{Dialog, first_dialog, render, run_microtask, handle_close}
use daili_usage_keeper_north.Ui.Dialog.Laws.{
  Step, Reach, IsOnItsWay, Reach-IsOnItsWay, fire_own, closed-settles, handle_close_lem,
}
use daili_usage_keeper_north.Ui.Dialog.Focus.{
  FollowsOrder, IsDistinct, after_tab, place_after, after_tab-cycles,
}

abbrev opened : Dialog
opened = render true false first_dialog

abbrev shown : Dialog
shown = run_microtask opened

-- The effect runs again when the dialog is visible, and its microtask finds nothing to do.
abbrev settled : Dialog
settled = run_microtask shown

settled-Reach : Reach settled
settled-Reach =
    Reach.next
      (Reach.next (Reach.next Reach.mounted (Step.rendered true false first_dialog))
        (Step.task opened))
      (Step.task shown)

Reach-IsOnItsWay_example : IsOnItsWay (handle_close settled)
Reach-IsOnItsWay_example = Reach-IsOnItsWay (Reach.next settled-Reach (Step.close_asked settled))

abbrev closed : Dialog
closed = render false false settled

closed_is_gone : (fire_own false (run_microtask closed)).is_visible ≡ false
unfolding render run_microtask
closed_is_gone =
    (closed-settles (Reach.next settled-Reach (Step.rendered false false settled)) refl).0

handle_close_example :
    let asked = handle_close settled in
    let e = fire_own false asked in
    let kept = run_microtask (render true true asked) in
    ((e.told ≡ settled.told + 1) × (e.is_visible ≡ false) × (e.open_prop ≡ false))
    × ((kept.told ≡ settled.told)
        × (kept.is_visible ≡ true)
        × (kept.is_closing ≡ false)
        × (kept.live ≡ []))
unfolding render run_microtask
handle_close_example = handle_close_lem settled-Reach refl refl refl

-- A close button, number 5, and a field, number 8, in a dialog that is number 3.
abbrev elements : List ℕ
elements = 5 ∷ 8 ∷ []

abbrev by_browser : Bool → ℕ → Option ℕ
by_browser false e = some 8
by_browser true e = some 5

by_browser-FollowsOrder : FollowsOrder by_browser elements
by_browser-FollowsOrder zero x y h k = (k, h)
by_browser-FollowsOrder (suc zero) x y h k = cc
by_browser-FollowsOrder (suc (suc i)) x y h k = cc

two-IsDistinct : IsDistinct elements
two-IsDistinct zero zero x h k = refl
two-IsDistinct (suc zero) (suc zero) x h k = refl
two-IsDistinct zero (suc zero) x h k = ground (arith)
two-IsDistinct (suc zero) zero x h k = ground (arith)
two-IsDistinct zero (suc (suc j)) x h k = cc
two-IsDistinct (suc zero) (suc (suc j)) x h k = cc
two-IsDistinct (suc (suc i)) j x h k = cc

two-apart : (j : ℕ) → get_elem? elements j ≢ some 3
two-apart zero = λ e. ground (arith)
two-apart (suc zero) = λ e. ground (arith)
two-apart (suc (suc j)) = λ e. cc

after_tab-cycles_example :
    after_tab false 3 5 (8 ∷ []) by_browser by_browser-FollowsOrder two-IsDistinct two-apart true 5
    ≡ get_elem? elements (place_after true 2 0)
after_tab-cycles_example =
    after_tab-cycles false 3 5 (8 ∷ []) by_browser by_browser-FollowsOrder two-IsDistinct two-apart
      true 0 5 refl
