-- ===== src/Theme/Tests.antt =====
-- The theorem about the theme store at a concrete sequence of steps.
use daili_usage_keeper_north.Base.{◌≡◌, refl, true, false, none, some}
use daili_usage_keeper_north.Theme.{
  ThemeState, auto, white, resolved_light, initialize_theme, set_theme, system_changes,
}

abbrev saved : ThemeState
saved = record {
  theme = white;
  resolved_theme = resolved_light;
  attribute = none;
  has_match_media = true;
  prefers_dark = false;
  listeners = 0;
}

-- The theme follows the system, which turns dark.
abbrev at_night : ThemeState
at_night = system_changes true (set_theme auto (initialize_theme saved))

dark_page : at_night.attribute ≡ some "dark"
unfolding system_changes set_theme initialize_theme
dark_page = refl
