-- ===== src/Web/Theme.antt =====
-- apps/web/src/lib/theme.ts, the theme of App.tsx and the switch of SettingsPage.tsx, in a browser.
pub mod Laws
use remodelator.Base.{String, Bool, true, false, Option, none, some, ◌||◌, if◌then◌else◌}
use remodelator.Base.Text.{text_eq}

pub data AppTheme : Type 0 where
  light dark : AppTheme

abbrev pub theme_name : AppTheme → String
theme_name light = "light"
theme_name dark = "dark"

-- what the browser keeps: the item `remodelator-theme` of the local storage, the class `dark` and the
-- colour scheme of the document; and the themes that App and SettingsPage hold
pub record Browser : Type 0 where
  pub stored : Option String
  pub dark_class : Bool
  pub color_scheme : String
  pub toaster_theme : AppTheme
  pub settings_theme : AppTheme

-- `isTheme`, and the theme that such a value is
unfoldable pub is_theme : Option String → Bool
is_theme none = false
is_theme (some value) = text_eq value "light" || text_eq value "dark"

abbrev read_theme : Option String → AppTheme
read_theme none = light
read_theme (some value) = if text_eq value "dark" then dark else light

unfoldable pub get_stored_theme : Browser → AppTheme
unfolding is_theme
get_stored_theme b = if is_theme b.stored then read_theme b.stored else light

abbrev is_dark : AppTheme → Bool
is_dark light = false
is_dark dark = true

unfoldable pub apply_theme : AppTheme → Browser → Browser
apply_theme theme b = record b { dark_class = is_dark theme; color_scheme = theme_name theme }

-- the listener of App.tsx; the detail of an event is any text
unfoldable pub theme_changed : String → Browser → Browser
theme_changed detail b =
    if text_eq detail "light"
    then record b { toaster_theme = light }
    else if text_eq detail "dark"
    then record b { toaster_theme = dark }
    else b

unfoldable pub set_theme : AppTheme → Browser → Browser
unfolding apply_theme theme_changed
set_theme theme b =
    apply_theme theme
      (theme_changed (theme_name theme) (record b { stored = some (theme_name theme) }))

unfoldable pub initialize_theme : Browser → Browser
unfolding apply_theme get_stored_theme
initialize_theme b = apply_theme (get_stored_theme b) b

-- a new start: the document of index.html, and the first renders
unfoldable pub start : Browser → Browser
unfolding initialize_theme get_stored_theme
start b = initialize_theme (record b {
  dark_class = false;
  color_scheme = "";
  toaster_theme = get_stored_theme b;
  settings_theme = get_stored_theme b;
})

abbrev other_theme : AppTheme → AppTheme
other_theme light = dark
other_theme dark = light

unfoldable pub handle_theme_toggle : Browser → Browser
unfolding set_theme
handle_theme_toggle b =
    let next = other_theme b.settings_theme in record (set_theme next b) { settings_theme = next }
