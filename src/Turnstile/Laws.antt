-- ===== src/Turnstile/Laws.antt =====
-- The test of a visitor is shown once.
use poolx.Common.{
  ℕ, ◌≤◌, Bool, true, false, ◌&&◌, ◌||◌, List, [], ◌∷◌, Option, none, some, ◌≡◌, refl, ap, ◌∙◌,
  arith, if◌then◌else◌, ◌==◌, nat_eq, ==_refl,
}
use poolx.Turnstile.{
  Event, State, appeared, changed, clean_up, gone, initial, mount_widget, remove, remove_old,
  render, run, run_effect, script_loaded, step,
}

-- The widgets of the script, for what the component remembers.
abbrev widgets : Option ℕ → List ℕ
widgets none = []
widgets (some id) = id ∷ []

-- The script has the widget that the component remembers and no other; there is one only while the
-- component is there and the script is loaded, and then there is one; the document has one script
-- element at most, and while the component waits for it, it has one.
pub record IsSingle (s : State) : Type 0 where
  pub live : s.live ≡ widgets s.widget
  pub scripts : s.scripts ≤ 1
  pub hidden : (s.active && s.loaded) ≡ false → s.widget ≡ none
  pub waiting : s.loaded ≡ false → s.listening ≡ s.active

initial-IsSingle : IsSingle initial
initial-IsSingle = record {
  live = refl;
  scripts = omega arith;
  hidden = λ h. refl;
  waiting = λ h. refl;
}

-- Without its old widget, the component and the script have none.
remove_old-cleared :
    (w : Option ℕ) (t : State)
    → t.live ≡ widgets w
    → t.widget ≡ w
    → remove_old w t ≡ record t { widget = none; live = [] }
unfolding remove_old remove
remove_old-cleared none t h k = λ i. record t { widget = k i; live = h i }
remove_old-cleared (some id) t h k = rw (h, ==_refl id) refl

if-IsSingle :
    (test : Bool) (s t : State)
    → (test ≡ true → IsSingle s)
    → (test ≡ false → IsSingle t)
    → IsSingle (if test then s else t)
if-IsSingle true s t v w = v refl
if-IsSingle false s t v w = w refl

and_false : (a : Bool) {b : Bool} → b ≡ false → (a && b) ≡ false
and_false a e = ground (arith, e)

mount_widget-IsSingle :
    (s : State)
    → s.live ≡ widgets s.widget
    → s.scripts ≤ 1
    → ((s.active && s.loaded) ≡ false → s.widget ≡ none)
    → (s.loaded ≡ false → s.listening ≡ s.active)
    → IsSingle (mount_widget s)
unfolding mount_widget render
mount_widget-IsSingle s live scripts hidden waiting =
    if-IsSingle (s.active && s.loaded) _ s
      (λ e. rw (remove_old-cleared s.widget s live refl) (record {
        live = refl;
        scripts = scripts;
        hidden = λ h. absurd (ground (arith, e, h));
        waiting = waiting;
      }))
      (λ e. record { live = live; scripts = scripts; hidden = hidden; waiting = waiting })

-- The component waits for the script.
awaits-IsSingle :
    (s : State) (scripts : ℕ)
    → s.live ≡ widgets s.widget
    → scripts ≤ 1
    → s.widget ≡ none
    → IsSingle (record s { scripts = scripts; listening = true; active = true })
awaits-IsSingle s scripts live le empty = record {
  live = live;
  scripts = le;
  hidden = λ h. empty;
  waiting = λ h. refl;
}

run_effect-IsSingle : (s : State) → IsSingle s → s.active ≡ false → IsSingle (run_effect s)
unfolding run_effect
run_effect-IsSingle s v idle =
    let empty : s.widget ≡ none = v.hidden (ground (arith, idle)) in
    if-IsSingle s.loaded _ _
      (λ l.
        mount_widget-IsSingle (record s { active = true }) v.live v.scripts (λ h. empty)
          (λ h. absurd (ground (arith, l, h))))
      (λ l.
        if-IsSingle (s.scripts == 0) _ _ (λ e. awaits-IsSingle s 1 v.live (omega arith) empty)
          (λ e. awaits-IsSingle s s.scripts v.live v.scripts empty))

-- The component has gone, and its widget before it.
gone-IsSingle :
    (s : State)
    → s.scripts ≤ 1
    → IsSingle (record s { widget = none; live = []; active = false; listening = false })
gone-IsSingle s le = record { live = refl; scripts = le; hidden = λ h. refl; waiting = λ h. refl }

if_either :
    (test : Bool) (s t u : State)
    → (test ≡ true → s ≡ u)
    → (test ≡ false → t ≡ u)
    → (if test then s else t) ≡ u
if_either true s t u h k = h refl
if_either false s t u h k = k refl

-- The clean-up leaves nothing.
clean_up-gone :
    (s : State)
    → IsSingle s
    → clean_up s ≡ record s { widget = none; live = []; active = false; listening = false }
unfolding clean_up
clean_up-gone s v =
    if_either s.loaded _ _ _
      (λ l.
        remove_old-cleared s.widget (record s { active = false; listening = false }) v.live refl)
      (λ l.
        let empty : s.widget ≡ none = v.hidden (and_false s.active l) in
        let live : s.live ≡ [] = v.live ∙ ap widgets empty in
        λ i. record s { widget = empty i; live = live i; active = false; listening = false })

script_loaded-IsSingle : (s : State) → IsSingle s → IsSingle (step script_loaded s)
unfolding step
script_loaded-IsSingle s v =
    if-IsSingle (s.scripts == 0 || s.loaded) s _ (λ e. v)
      (λ e.
        let late : s.loaded ≡ false = ground (arith, e) in
        let empty : s.widget ≡ none = v.hidden (and_false s.active late) in
        if-IsSingle s.listening _ _
          (λ l.
            mount_widget-IsSingle (record s { loaded = true }) v.live v.scripts (λ h. empty)
              (λ h. absurd (ground (arith, h))))
          (λ l. record {
            live = v.live;
            scripts = v.scripts;
            hidden = λ h. empty;
            waiting = λ h. absurd (ground (arith, h));
          }))

step-IsSingle : (e : Event) (s : State) → IsSingle s → IsSingle (step e s)
unfolding step
step-IsSingle appeared s v = if-IsSingle s.active _ _ (λ a. v) (λ a. run_effect-IsSingle s v a)
step-IsSingle changed s v =
    let left : IsSingle (clean_up s) = rw (clean_up-gone s v) (gone-IsSingle s v.scripts) in
    if-IsSingle s.active _ _
      (λ a. run_effect-IsSingle (clean_up s) left (ap (λ t. t.active) (clean_up-gone s v))) (λ a. v)
step-IsSingle gone s v =
    if-IsSingle s.active _ _ (λ a. rw (clean_up-gone s v) (gone-IsSingle s v.scripts)) (λ a. v)
step-IsSingle script_loaded s v = script_loaded-IsSingle s v

run-IsSingle : (es : List Event) (s : State) → IsSingle s → IsSingle (run es s)
unfolding run
run-IsSingle [] s v = v
run-IsSingle (e ∷ es) s v = run-IsSingle es (step e s) (step-IsSingle e s v)

-- Whatever happens in whatever order (the component appears, is given other functions, goes, the
-- script is loaded), the test is shown once at most and belongs to the component: the script has
-- exactly the widget that the component remembers, which is none when the component has gone or the
-- script is not loaded, and the document has one script element at most.
pub run-initial-IsSingle : (es : List Event) → IsSingle (run es initial)
run-initial-IsSingle es = run-IsSingle es initial initial-IsSingle
