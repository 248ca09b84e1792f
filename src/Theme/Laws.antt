-- ===== src/Theme/Laws.antt =====
-- The document and the store agree with the theme chosen, and a reload keeps it.
use poolx.Common.{Bool, List, [], ◌∷◌, Option, some, ◌≡◌, refl, ap, ◌∙◌, arith}
use poolx.Common.Text.{Text}
use poolx.Theme.{
  ThemeMode, light, dark, system, mode_text, is_theme_mode, resolve_theme, State, or_system,
  init_script, apply_theme, mount, load, Event, set_theme_mode, preference_changed, reload, step,
  run,
}

-- The document shows the theme of the mode chosen, and the mode is stored.
pub record IsShown (s : State) : Type 0 where
  pub stored : s.stored ≡ some (mode_text s.theme_mode)
  pub mode : s.data_theme_mode ≡ some (mode_text s.theme_mode)
  pub theme : s.data_theme ≡ resolve_theme s.theme_mode s.prefers_dark
  pub scheme : s.color_scheme ≡ resolve_theme s.theme_mode s.prefers_dark
  pub resolved : s.resolved_theme ≡ resolve_theme s.theme_mode s.prefers_dark

apply_theme-IsShown : (mode : ThemeMode) (s : State) → IsShown (apply_theme mode s)
unfolding apply_theme
apply_theme-IsShown mode s = record {
  stored = refl;
  mode = refl;
  theme = refl;
  scheme = refl;
  resolved = refl;
}

load-IsShown : (stored : Option Text) (prefers : Bool) → IsShown (load stored prefers)
unfolding load mount
load-IsShown stored prefers = apply_theme-IsShown _ _

is_theme_mode-mode_text : (m : ThemeMode) → is_theme_mode (some (mode_text m)) ≡ some m
unfolding is_theme_mode mode_text
is_theme_mode-mode_text light = refl
is_theme_mode-mode_text dark = refl
is_theme_mode-mode_text system = refl

preference_changed-IsShown :
    (s : State) (prefers : Bool) → IsShown s → IsShown (step s (preference_changed prefers))
unfolding step resolve_theme apply_theme
preference_changed-IsShown s prefers v = ground arith

pub step-IsShown : (s : State) (e : Event) → IsShown s → IsShown (step s e)
unfolding step
step-IsShown s (set_theme_mode mode) v = apply_theme-IsShown mode s
step-IsShown s (preference_changed prefers) v = preference_changed-IsShown s prefers v
step-IsShown s reload v = load-IsShown s.stored s.prefers_dark

run-IsShown : (s : State) (es : List Event) → IsShown s → IsShown (run s es)
unfolding run
run-IsShown s [] v = v
run-IsShown s (e ∷ es) v = run-IsShown (step s e) es (step-IsShown s e v)

-- The state is determined by the mode and the preference.
pub IsShown-unique :
    (s t : State)
    → IsShown s
    → IsShown t
    → s.prefers_dark ≡ t.prefers_dark
    → s.theme_mode ≡ t.theme_mode
    → s ≡ t
IsShown-unique s t v w p m = cc

theme_mode-load : (s : State) → IsShown s → (load s.stored s.prefers_dark).theme_mode ≡ s.theme_mode
unfolding load mount init_script apply_theme
theme_mode-load s v = rw (v.stored, is_theme_mode-mode_text, is_theme_mode-mode_text) refl

is_theme_mode-own : (mode : ThemeMode) → or_system (is_theme_mode (some (mode_text mode))) ≡ mode
is_theme_mode-own mode = rw (is_theme_mode-mode_text mode) refl

theme_mode-first :
    (stored : Option Text) (prefers : Bool)
    → (load stored prefers).theme_mode ≡ or_system (is_theme_mode stored)
unfolding load mount init_script apply_theme
theme_mode-first stored prefers = is_theme_mode-own (or_system (is_theme_mode stored))

prefers_dark-load :
    (stored : Option Text) (prefers : Bool) → (load stored prefers).prefers_dark ≡ prefers
unfolding load mount init_script apply_theme
prefers_dark-load stored prefers = refl

load-same : (s : State) → IsShown s → load s.stored s.prefers_dark ≡ s
load-same s v =
    IsShown-unique (load s.stored s.prefers_dark) s (load-IsShown s.stored s.prefers_dark) v
      (prefers_dark-load s.stored s.prefers_dark) (theme_mode-load s v)

-- The mode that was chosen last, and the last preference of the browser, by the events alone.
abbrev pub last_mode : ThemeMode → List Event → ThemeMode
last_mode mode [] = mode
last_mode mode (set_theme_mode chosen ∷ es) = last_mode chosen es
last_mode mode (preference_changed prefers ∷ es) = last_mode mode es
last_mode mode (reload ∷ es) = last_mode mode es

abbrev pub last_preference : Bool → List Event → Bool
last_preference prefers [] = prefers
last_preference prefers (set_theme_mode chosen ∷ es) = last_preference prefers es
last_preference prefers (preference_changed changed ∷ es) = last_preference changed es
last_preference prefers (reload ∷ es) = last_preference prefers es

preference_changed-kept :
    (s : State) (prefers : Bool)
    → let t = step s (preference_changed prefers) in
      (t.theme_mode ≡ s.theme_mode) × (t.prefers_dark ≡ prefers)
unfolding step apply_theme
preference_changed-kept s prefers = ground arith

run-chosen :
    (s : State) (es : List Event)
    → IsShown s
    → ((run s es).theme_mode ≡ last_mode s.theme_mode es)
      × ((run s es).prefers_dark ≡ last_preference s.prefers_dark es)
unfolding run step apply_theme
run-chosen s [] v = (refl, refl)
run-chosen s (set_theme_mode mode ∷ es) v =
    run-chosen (step s (set_theme_mode mode)) es (step-IsShown s (set_theme_mode mode) v)
run-chosen s (preference_changed prefers ∷ es) v =
    let t = step s (preference_changed prefers) in
    let (mode, changed) = preference_changed-kept s prefers in
    let rest = run-chosen t es (step-IsShown s (preference_changed prefers) v) in
    (rest.0 ∙ ap (λ m. last_mode m es) mode, rest.1 ∙ ap (λ p. last_preference p es) changed)
run-chosen s (reload ∷ es) v =
    let rest = run-chosen (step s reload) es (step-IsShown s reload v) in
    let same : step s reload ≡ s = load-same s v in
    (
      rest.0 ∙ ap (λ t. last_mode t.theme_mode es) same,
      rest.1 ∙ ap (λ t. last_preference t.prefers_dark es) same,
    )

pub run-load-IsShown :
    (stored : Option Text) (prefers : Bool) (es : List Event)
    → let s = run (load stored prefers) es in
      (s.theme_mode ≡ last_mode (or_system (is_theme_mode stored)) es)
      × (s.prefers_dark ≡ last_preference prefers es)
      × IsShown s
      × (step s reload ≡ s)
unfolding step
run-load-IsShown stored prefers es =
    let shown = load-IsShown stored prefers in
    let chosen = run-chosen (load stored prefers) es shown in
    let v = run-IsShown (load stored prefers) es shown in
    (
      chosen.0 ∙ ap (λ m. last_mode m es) (theme_mode-first stored prefers),
      chosen.1 ∙ ap (λ p. last_preference p es) (prefers_dark-load stored prefers),
      v,
      load-same (run (load stored prefers) es) v,
    )
