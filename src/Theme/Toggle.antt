-- ===== src/Theme/Toggle.antt =====
-- server/web/components/ui/theme-toggle.tsx: the button that goes through the modes.
pub mod Laws
use poolx.Common.{
  ℕ, zero, suc, ◌+◌, ◌%◌, List, [], ◌∷◌, Option, none, some, String, length, or_else,
}
use poolx.Theme.{ThemeMode, light, dark, system, State, Event, set_theme_mode, step}

-- `themeModes`, and the `indexOf` of a mode in it.
abbrev pub theme_modes : List ThemeMode
theme_modes = light ∷ dark ∷ system ∷ []

abbrev pub index_of : ThemeMode → ℕ
index_of light = 0
index_of dark = 1
index_of system = 2

abbrev at : {A : Type 0} → ℕ → List A → Option A
at n [] = none
at zero (x ∷ xs) = some x
at (suc n) (x ∷ xs) = at n xs

unfoldable pub next_theme : ThemeMode → ThemeMode
next_theme mode = or_else (at ((index_of mode + 1) % length theme_modes) theme_modes) mode

-- A click on the button.
unfoldable pub click : State → State
click s = step s (set_theme_mode (next_theme s.theme_mode))
