-- ===== src/Theme.antt =====
-- The theme of the console: server/web/lib/theme/theme.ts and
-- server/web/components/providers/theme-provider.tsx, with the attributes of the document and the
-- entry of `localStorage` that they write.
pub mod Laws
pub mod Toggle
use poolx.Common.{
  Bool, true, false, List, [], ◌∷◌, Option, none, some, if◌then◌else◌, ◌==◌, list_eq,
}
use poolx.Common.Text.{Text, units}

pub data ThemeMode : Type 0 where
  light dark system : ThemeMode

pub data ResolvedTheme : Type 0 where
  light_theme dark_theme : ResolvedTheme

-- The text of a mode, as it is stored.
unfoldable pub mode_text : ThemeMode → Text
mode_text light = units "light"
mode_text dark = units "dark"
mode_text system = units "system"

-- `isThemeMode`, with the mode that the text is.
unfoldable pub is_theme_mode : Option Text → Option ThemeMode
is_theme_mode none = none
is_theme_mode (some value) =
    if value == units "light"
    then some light
    else if value == units "dark"
    then some dark
    else if value == units "system"
    then some system
    else none

unfoldable pub resolve_theme : ThemeMode → Bool → ResolvedTheme
resolve_theme light prefers_dark = light_theme
resolve_theme dark prefers_dark = dark_theme
resolve_theme system prefers_dark = if prefers_dark then dark_theme else light_theme

-- The document, the store and the preference of the browser, and the state of `ThemeProvider`.
pub record State : Type 0 where
  pub prefers_dark : Bool
  pub stored : Option Text
  pub data_theme_mode : Option Text
  pub data_theme : ResolvedTheme
  pub color_scheme : ResolvedTheme
  pub theme_mode : ThemeMode
  pub resolved_theme : ResolvedTheme

abbrev pub or_system : Option ThemeMode → ThemeMode
or_system none = system
or_system (some mode) = mode

-- What the script of `getThemeInitScript` does to the document.
unfoldable pub init_script : State → State
init_script s =
    let mode = or_system (is_theme_mode s.stored) in
    let theme = resolve_theme mode s.prefers_dark in
    record s { data_theme_mode = some (mode_text mode); data_theme = theme; color_scheme = theme }

-- `applyTheme`, and the setters that follow it.
unfoldable pub apply_theme : ThemeMode → State → State
apply_theme mode s =
    let theme = resolve_theme mode s.prefers_dark in
    record s {
      data_theme_mode = some (mode_text mode);
      data_theme = theme;
      color_scheme = theme;
      stored = some (mode_text mode);
      theme_mode = mode;
      resolved_theme = theme;
    }

-- The effect of `ThemeProvider` when it is mounted.
unfoldable pub mount : State → State
mount s = apply_theme (or_system (is_theme_mode s.data_theme_mode)) s

-- A page is loaded with this store and preference: the script runs before the provider is mounted,
-- whose first state is `system` and `dark`.
unfoldable pub load : Option Text → Bool → State
load stored prefers_dark = mount (
    init_script (record {
      prefers_dark = prefers_dark;
      stored = stored;
      data_theme_mode = none;
      data_theme = dark_theme;
      color_scheme = dark_theme;
      theme_mode = system;
      resolved_theme = dark_theme;
    }))

pub data Event : Type 0 where
  set_theme_mode : ThemeMode → Event
  -- The preference of the browser changes.
  preference_changed : Bool → Event
  -- The page is loaded again.
  reload : Event

abbrev is_system : ThemeMode → Bool
is_system system = true
is_system _ = false

unfoldable pub step : State → Event → State
step s (set_theme_mode mode) = apply_theme mode s
step s (preference_changed prefers) =
    let next = record s { prefers_dark = prefers } in
    if is_system s.theme_mode then apply_theme system next else next
step s reload = load s.stored s.prefers_dark

unfoldable pub run : State → List Event → State
run s [] = s
run s (e ∷ es) = run (step s e) es
