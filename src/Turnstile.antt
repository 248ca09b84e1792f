-- ===== src/Turnstile.antt =====
-- server/web/components/forms/turnstile-widget.tsx: the effect that shows the test of a visitor, and
-- its clean-up. The script of the test sets `window.turnstile` when it is loaded; its `render` makes a
-- widget with an identifier of its own, its `remove` takes one away.
pub mod Laws
use poolx.Common.{
  ℕ, suc, ◌+◌, Bool, true, false, not, ◌&&◌, ◌||◌, List, [], ◌∷◌, Option, none, some, if◌then◌else◌,
  filter, ◌==◌, nat_eq,
}

pub record State : Type 0 where
  -- `widgetIdRef`, the widgets of the script, and the identifier of its next one.
  pub widget : Option ℕ
  pub live : List ℕ
  pub next : ℕ
  -- Whether `window.turnstile` is there, the script elements of the document, whether `mountWidget` of
  -- the last effect listens to the script, and whether that effect is active, not `cancelled`.
  pub loaded : Bool
  pub scripts : ℕ
  pub listening : Bool
  pub active : Bool

abbrev pub initial : State
initial = record {
  widget = none;
  live = [];
  next = 0;
  loaded = false;
  scripts = 0;
  listening = false;
  active = false;
}

-- `window.turnstile.remove` and `window.turnstile.render`.
unfoldable pub remove : ℕ → State → State
remove id s = record s { widget = none; live = filter (λ w. not (w == id)) s.live }

unfoldable pub render : State → State
render s = record s { widget = some s.next; live = s.next ∷ s.live; next = suc s.next }

unfoldable pub remove_old : Option ℕ → State → State
remove_old none s = s
remove_old (some id) s = remove id s

-- `mountWidget`; the container is there while the component is.
unfoldable pub mount_widget : State → State
mount_widget s = if s.active && s.loaded then render (remove_old s.widget s) else s

-- The effect, up to its clean-up.
unfoldable pub run_effect : State → State
run_effect s =
    let t : State = record s { active = true } in
    if s.loaded
    then mount_widget t
    else if s.scripts == 0
    then record t { scripts = 1; listening = true }
    else record t { listening = true }

-- The clean-up.
unfoldable pub clean_up : State → State
clean_up s =
    let t : State = record s { active = false; listening = false } in
    if s.loaded then remove_old s.widget t else t

-- React runs the effect when the component appears, cleans up and runs it again when a function or
-- the key that it is given is another one, and cleans up when the component goes. `script_loaded` is
-- the `load` event of the script, which sets `window.turnstile` before.
pub data Event : Type 0 where
  appeared changed gone script_loaded : Event

unfoldable pub step : Event → State → State
step appeared s = if s.active then s else run_effect s
step changed s = if s.active then run_effect (clean_up s) else s
step gone s = if s.active then clean_up s else s
step script_loaded s =
    if s.scripts == 0 || s.loaded
    then s
    else (let t : State = record s { loaded = true } in if s.listening then mount_widget t else t)

unfoldable pub run : List Event → State → State
run [] s = s
run (e ∷ es) s = run es (step e s)
