-- ===== src/Tests/Theme.antt =====
-- The theme at a concrete sequence of events.
use poolx.Common.{true, false, List, [], ◌∷◌, some, ◌≡◌}
use poolx.Common.Text.{units}
use poolx.Theme.{
  State, light, system, load, Event, set_theme_mode, preference_changed, reload, step, run,
  is_theme_mode, or_system,
}
use poolx.Theme.Laws.{IsShown, last_mode, last_preference, run-load-IsShown}

abbrev events : List Event
events =
    preference_changed true
    ∷ set_theme_mode light
    ∷ reload
    ∷ preference_changed false
    ∷ set_theme_mode system
    ∷ []

abbrev ended : State
ended = run (load (some (units "blue")) false) events

run-load-IsShown_example :
    (ended.theme_mode ≡ last_mode (or_system (is_theme_mode (some (units "blue")))) events)
    × (ended.prefers_dark ≡ last_preference false events)
    × IsShown ended
    × (step ended reload ≡ ended)
run-load-IsShown_example = run-load-IsShown (some (units "blue")) false events
