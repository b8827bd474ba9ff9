-- ===== src/Theme/Laws.antt =====
-- The document shows the theme that is chosen, and the cycle visits the four themes.
use daili_usage_keeper_north.Base.{◌<◌, ◌≡◌, refl, Bool, true, arith, ◌≢◌}
use daili_usage_keeper_north.Theme.{
  Theme, light, white, dark, auto, ThemeState, resolve_theme, apply_theme, normalize_resolved_theme,
  set_theme, next_theme, cycle_theme, initialize_theme, system_changes,
}

-- The attribute and the resolved theme are those of the chosen theme and of the system.
pub record IsApplied (s : ThemeState) : Type 0 where
  pub attribute_is : s.attribute ≡ apply_theme (resolve_theme s s.theme)
  pub resolved_is : s.resolved_theme ≡ normalize_resolved_theme (resolve_theme s s.theme)
  pub heard : s.has_match_media ≡ true → 0 < s.listeners

pub data Step : ThemeState → ThemeState → Type 0 where
  sets : (t : Theme) (s : ThemeState) → Step s (set_theme t s)
  cycles : (s : ThemeState) → Step s (cycle_theme s)
  changes : (d : Bool) (s : ThemeState) → Step s (system_changes d s)

pub data Reach : ThemeState → Type 0 where
  initialized : (s : ThemeState) → Reach (initialize_theme s)
  next : {s s' : ThemeState} → Reach s → Step s s' → Reach s'

-- Four turns of the cycle come back to the theme, and fewer do not.
pub next_theme-four :
    (t : Theme)
    → (next_theme (next_theme (next_theme (next_theme t))) ≡ t)
      × (next_theme t ≢ t)
      × (next_theme (next_theme t) ≢ t)
unfolding next_theme
next_theme-four light = (refl, (λ e. ground (arith, e)), (λ e. ground (arith, e)))
next_theme-four white = (refl, (λ e. ground (arith, e)), (λ e. ground (arith, e)))
next_theme-four dark = (refl, (λ e. ground (arith, e)), (λ e. ground (arith, e)))
next_theme-four auto = (refl, (λ e. ground (arith, e)), (λ e. ground (arith, e)))
