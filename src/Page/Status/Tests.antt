-- ===== src/Page/Status/Tests.antt =====
-- The poll of the status at a concrete sequence of events.
use daili_usage_keeper_north.Base.{◌≡◌, refl, String}
use daili_usage_keeper_north.Page.Status.{Poll, start_poll, poll_tick, settle_status}

-- The first answer comes after the second request was made.
abbrev twice : Poll String
twice = poll_tick start_poll

abbrev late : Poll String
late = settle_status (λ s. s) 0 "old" (twice.flights 0) twice

late_changes_nothing : late ≡ twice
unfolding poll_tick start_poll
late_changes_nothing = refl
