-- ===== src/Page/Tests.antt =====
-- The theorems about the page's timers at a concrete sequence of events.
use daili_usage_keeper_north.Base.{◌≡◌, refl, true, false, none, some, []}
use daili_usage_keeper_north.Page.AutoRefresh.{
  Watch, schedule_overview_auto_refresh, change_visibility,
}
use daili_usage_keeper_north.Page.AutoRefresh.Laws.{IsTimed, Step, Reach, Reach-IsTimed}

abbrev idle : Watch
idle = record {
  visible = true;
  timer = none;
  live = [];
  next = 7;
  listening = false;
  refreshes = 0;
}

abbrev shown_again : Watch
shown_again =
    change_visibility true (change_visibility false (schedule_overview_auto_refresh true idle))

reached : Reach shown_again
reached =
    Reach.next
      (Reach.next (Reach.called idle (refl, refl, refl))
        (Step.shown false (schedule_overview_auto_refresh true idle)))
      (Step.shown true (change_visibility false (schedule_overview_auto_refresh true idle)))

Reach-IsTimed_example : IsTimed shown_again
Reach-IsTimed_example = Reach-IsTimed reached

new_timer : shown_again.timer ≡ some 8
unfolding change_visibility schedule_overview_auto_refresh
new_timer = refl
