-- ===== src/Theme.antt =====
-- The theme store, web/src/stores/useThemeStore.ts, with what it writes on the document and what it
-- reads of the system's colour scheme. The middleware that persists it is left out.
pub mod Laws
pub mod Tests
use daili_usage_keeper_north.Base.{
  ℕ, suc, ◌+◌, ◌-◌, ◌%◌, String, Bool, true, false, ◌&&◌, Option, none, some, List, [], ◌∷◌,
  if◌then◌else◌, ltb, or_else, get_elem?, length, str_eq,
}

pub data Theme : Type 0 where
  light white dark auto : Theme

pub data ResolvedTheme : Type 0 where
  resolved_light resolved_dark : ResolvedTheme

pub data AppliedTheme : Type 0 where
  applied_light applied_white applied_dark : AppliedTheme

pub record ThemeState : Type 0 where
  pub theme : Theme
  pub resolved_theme : ResolvedTheme
  -- The attribute `data-theme` of the document.
  pub attribute : Option String
  -- Whether there is a `window.matchMedia`, and whether the system prefers dark colours.
  pub has_match_media : Bool
  pub prefers_dark : Bool
  -- How many listeners `initializeTheme` has registered and not removed.
  pub listeners : ℕ

unfoldable pub get_system_theme : ThemeState → ResolvedTheme
get_system_theme s = if s.has_match_media && s.prefers_dark then resolved_dark else resolved_light

abbrev pub auto_of : ResolvedTheme → AppliedTheme
auto_of resolved_dark = applied_dark
auto_of resolved_light = applied_white

unfoldable pub resolve_auto_theme : ThemeState → AppliedTheme
unfolding get_system_theme
resolve_auto_theme s = auto_of (get_system_theme s)

unfoldable pub normalize_resolved_theme : AppliedTheme → ResolvedTheme
normalize_resolved_theme applied_dark = resolved_dark
normalize_resolved_theme applied_white = resolved_light
normalize_resolved_theme applied_light = resolved_light

unfoldable pub resolve_theme : ThemeState → Theme → AppliedTheme
unfolding resolve_auto_theme
resolve_theme s auto = resolve_auto_theme s
resolve_theme s white = applied_white
resolve_theme s light = applied_light
resolve_theme s dark = applied_dark

-- What `applyTheme` leaves in the attribute.
unfoldable pub apply_theme : AppliedTheme → Option String
apply_theme applied_dark = some "dark"
apply_theme applied_white = some "white"
apply_theme applied_light = none

unfoldable pub set_theme : Theme → ThemeState → ThemeState
unfolding resolve_theme apply_theme normalize_resolved_theme
set_theme theme s = record s {
  theme = theme;
  resolved_theme = normalize_resolved_theme (resolve_theme s theme);
  attribute = apply_theme (resolve_theme s theme);
}

abbrev pub order : List Theme
order = light ∷ white ∷ dark ∷ auto ∷ []

abbrev pub text_of_theme : Theme → String
text_of_theme light = "light"
text_of_theme white = "white"
text_of_theme dark = "dark"
text_of_theme auto = "auto"

-- `order.indexOf(theme) + 1`
abbrev pub after_index : Theme → List Theme → ℕ
after_index t [] = 0
after_index t (u ∷ us) =
    let rest = after_index t us in
    if str_eq (text_of_theme u) (text_of_theme t) then 1 else if ltb 0 rest then suc rest else 0

unfoldable pub next_theme : Theme → Theme
next_theme t = or_else (get_elem? order (after_index t order % 4)) t

unfoldable pub cycle_theme : ThemeState → ThemeState
unfolding set_theme next_theme
cycle_theme s = set_theme (next_theme s.theme) s

unfoldable pub initialize_theme : ThemeState → ThemeState
unfolding set_theme
initialize_theme s =
    let s' = set_theme s.theme s in
    if s.has_match_media then record s' { listeners = s.listeners + 1 } else s'

-- The function that `initializeTheme` returns.
unfoldable pub remove_listener : ThemeState → ThemeState
remove_listener s = if s.has_match_media then record s { listeners = s.listeners - 1 } else s

abbrev pub listen : Theme → ThemeState → ThemeState
listen auto s = record s {
  resolved_theme = normalize_resolved_theme (resolve_auto_theme s);
  attribute = apply_theme (resolve_auto_theme s);
}
listen light s = s
listen white s = s
listen dark s = s

-- The system changes its colours: the listeners are told.
unfoldable pub system_changes : Bool → ThemeState → ThemeState
unfolding resolve_auto_theme apply_theme normalize_resolved_theme
system_changes dark_colours s =
    let s' = record s { prefers_dark = dark_colours } in
    if s.has_match_media && ltb 0 s.listeners then listen s.theme s' else s'
