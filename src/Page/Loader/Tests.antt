-- ===== src/Page/Loader/Tests.antt =====
-- The theorems about the loaders at concrete sequences of events.
use daili_usage_keeper_north.Base.{◌≡◌, refl, String, false, some, List, [], ◌∷◌, is_some}
use daili_usage_keeper_north.Store.{plain_error}
use daili_usage_keeper_north.Page.Loader.{Loader, Panel, load, enter, receive_failure, first_panel}
use daili_usage_keeper_north.Page.Loader.Tabs.{credentials_loader}
use daili_usage_keeper_north.Page.Loader.Latest.{
  PanelEvent, entered, answered, run, specified_run, view_of,
}
use daili_usage_keeper_north.Page.Loader.Invariant.{IsConsistent, Step, Reach, Panel-Reach}
use daili_usage_keeper_north.Page.Loader.Refinement.{loader_refines}

abbrev names : Loader Unit (List String) (List String)
names = credentials_loader String

-- The first request is given up for the second; its answer comes last.
abbrev events : List (PanelEvent Unit (List String))
events =
    entered (load tt) ∷ entered (load tt) ∷ answered 1 ("new" ∷ []) ∷ answered 0 ("old" ∷ []) ∷ []

loader_refines_example :
    (view_of (run names events (first_panel []))
      ≡ specified_run names events (view_of (first_panel [])))
    × ((run names events (first_panel [])).loading
        ≡ is_some (specified_run names events (view_of (first_panel []))).waiting)
loader_refines_example = loader_refines names events []

latest_shown : (specified_run names events (view_of (first_panel []))).content ≡ "new" ∷ []
unfolding first_panel credentials_loader
latest_shown = refl

abbrev loading_panel : Panel Unit (List String)
loading_panel = enter names (load tt) (first_panel [])

abbrev failed_panel : Panel Unit (List String)
failed_panel = receive_failure names 0 false (plain_error "offline") loading_panel

on_way : loading_panel.flights 0 ≡ some (record { query = tt; aborted = false })
unfolding enter first_panel
on_way = refl

Panel-Reach_example : IsConsistent failed_panel
Panel-Reach_example = Panel-Reach names (
    Reach.next (Reach.next Reach.here (Step.enters (load tt) (first_panel []))) (
      Step.fails 0 (record { query = tt; aborted = false }) (plain_error "offline") loading_panel
        on_way))
