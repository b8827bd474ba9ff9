-- ===== src/Ui/Tests.antt =====
-- The theorems about the elements of the interface at concrete values.
use daili_usage_keeper_north.Base.{◌≡◌, ◌<◌, refl, String, true, false, some, [], ◌∷◌, arith, List}
use daili_usage_keeper_north.Ui.ScrollLock.{
  Page, Snapshot, Locks, BodyStyle, lock_scroll, unlock_scroll, scrolled, fixed_page,
}
use daili_usage_keeper_north.Ui.ScrollLock.Laws.{Open, page_at_left, unlock_scroll-last}
use daili_usage_keeper_north.Ui.Select.{enter, handle_key_down}
use daili_usage_keeper_north.Ui.Select.Keys.{IsTurn, handle_key_down_lem}

abbrev plain : BodyStyle
plain = record { position = ""; top = ""; left = ""; right = ""; width = ""; overflow = "auto" }

abbrev page : Page
page = record {
  body = plain;
  html_overflow = "";
  body_locked = false;
  html_locked = false;
  scroll_x = 30;
  scroll_y = 120;
  content = some (5, 40);
}

abbrev no_lock : Snapshot
no_lock = record {
  scroll_y = 0;
  content_scroll_top = 0;
  has_content = false;
  body = plain;
  html_overflow = "";
}

abbrev idle : Locks
idle = record { active_modal_count = 0; snapshot = no_lock; page = page }

-- Two dialogs open, the content is scrolled, and one closes.
abbrev twice : Locks
twice = scrolled 0 0 2 7 (lock_scroll (lock_scroll idle))

more_than_one : 1 < twice.active_modal_count
unfolding lock_scroll
more_than_one = omega arith

abbrev once : Locks
once = unlock_scroll twice

unlock_scroll-last_example :
    ((once.page.body ≡ (fixed_page page).body) × (once.page.html_overflow ≡ "hidden"))
    × (once.active_modal_count ≡ 1 → (unlock_scroll once).page ≡ page_at_left page)
    × (once.active_modal_count ≡ 1 → (unlock_scroll once).active_modal_count ≡ 0)
unlock_scroll-last_example =
    unlock_scroll-last (
      Open.closes (Open.scrolls 0 0 2 7 (Open.another (Open.first no_lock refl refl)))
        more_than_one)

one_left : once.active_modal_count ≡ 1
unfolding lock_scroll unlock_scroll
one_left = refl

abbrev offered : List String
offered = "20" ∷ "50" ∷ []

handle_key_down_example : IsTurn offered (
    handle_key_down false offered "20" enter
      (record { is_open = true; highlighted_index = some 1 }))
handle_key_down_example =
    handle_key_down_lem false offered "20" enter
      (record { is_open = true; highlighted_index = some 1 }) (omega arith)
