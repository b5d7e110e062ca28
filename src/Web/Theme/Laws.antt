-- ===== src/Web/Theme/Laws.antt =====
-- theme.ts: the theme that is set is the one that is shown and kept.
use remodelator.Base.{◌≡◌, refl}
use remodelator.Web.Theme.{
  AppTheme, light, dark, Browser, is_theme, get_stored_theme, apply_theme, theme_changed, set_theme,
  initialize_theme, start, theme_name, is_dark,
}

-- document, toaster and storage agree on a theme
abbrev pub Shows : AppTheme → Browser → Type 0
Shows theme b =
    (get_stored_theme b ≡ theme)
    × (b.dark_class ≡ is_dark theme)
    × (b.color_scheme ≡ theme_name theme)
    × (b.toaster_theme ≡ theme)

-- A theme that is set is read back from the storage, and the document and the toaster show it, at once and
-- after the application has been started anew.
pub set_theme-Shows :
    (theme : AppTheme) (b : Browser)
    → Shows theme (set_theme theme b) × Shows theme (start (set_theme theme b))
unfolding set_theme start initialize_theme apply_theme theme_changed get_stored_theme is_theme
set_theme-Shows light b = ((refl, refl, refl, refl), (refl, refl, refl, refl))
set_theme-Shows dark b = ((refl, refl, refl, refl), (refl, refl, refl, refl))
