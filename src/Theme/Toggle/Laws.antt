-- ===== src/Theme/Toggle/Laws.antt =====
-- The button goes through all three modes and back.
use poolx.Common.{◌≡◌, refl, ◌⊎◌, inl, inr}
use poolx.Theme.{ThemeMode, light, dark, system, State, step, apply_theme}
use poolx.Theme.Laws.{IsShown, IsShown-unique, step-IsShown}
use poolx.Theme.Toggle.{next_theme, click}

next_theme-thrice : (m : ThemeMode) → next_theme (next_theme (next_theme m)) ≡ m
unfolding next_theme
next_theme-thrice light = refl
next_theme-thrice dark = refl
next_theme-thrice system = refl

prefers_dark-thrice : (s : State) → (click (click (click s))).prefers_dark ≡ s.prefers_dark
unfolding click step apply_theme
prefers_dark-thrice s = refl

theme_mode-thrice : (s : State) → (click (click (click s))).theme_mode ≡ s.theme_mode
unfolding click step apply_theme
theme_mode-thrice s = next_theme-thrice s.theme_mode

click-IsShown : (s : State) → IsShown s → IsShown (click s)
unfolding click
click-IsShown s v = step-IsShown s _ v

-- Some number of clicks, at most two, sets any mode.
abbrev pub Reaches : State → ThemeMode → Type 0
Reaches s m = (s.theme_mode ≡ m) ⊎ (((click s).theme_mode ≡ m) ⊎ ((click (click s)).theme_mode ≡ m))

reached : (s : State) (m n : ThemeMode) → s.theme_mode ≡ n → Reaches s m
unfolding click step apply_theme next_theme
reached s light light e = inl e
reached s light dark e = inr (inr (rw e refl))
reached s light system e = inr (inl (rw e refl))
reached s dark light e = inr (inl (rw e refl))
reached s dark dark e = inl e
reached s dark system e = inr (inr (rw e refl))
reached s system light e = inr (inr (rw e refl))
reached s system dark e = inr (inl (rw e refl))
reached s system system e = inl e

-- From a page that shows its theme, at most two clicks on the button set any mode that is wanted, and
-- three clicks give back the whole state, the document and the store included.
pub click-thrice :
    (s : State) (m : ThemeMode) → IsShown s → Reaches s m × (click (click (click s)) ≡ s)
click-thrice s m v = (
  reached s m s.theme_mode refl,
  IsShown-unique (click (click (click s))) s
      (click-IsShown (click (click s)) (click-IsShown (click s) (click-IsShown s v))) v
      (prefers_dark-thrice s) (theme_mode-thrice s),
)
