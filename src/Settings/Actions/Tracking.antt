-- ===== src/Settings/Actions/Tracking.antt =====
-- The key that is busy, while actions of the settings page start, go on and end.
use poolx.Common.{
  ℕ, zero, suc, Bool, true, ◌||◌, List, [], ◌∷◌, Option, none, some, String, any, any-append, ◌≡◌,
  refl, sym, ap, ◌∙◌, arith, ◌==◌, string_eq, ==_refl,
}
use poolx.Ui.{Thrown}
use poolx.Settings.Entries.{Checked, passed, refused}
use poolx.Settings.Actions.{
  Effect, Progress, Running, State, Wait, after_answer, code_sent, email_bound, email_refreshed,
  fail_with, finishes, go_on, goes_on, invalidate_options, option_saved, options_invalidated,
  profile_refreshed, profile_saved, progress, run_busy_action, run_progress, run_save, save_from,
  status_invalidated, succeed_with, update_option, wechat_bound, wechat_refreshed, with_wait,
}

abbrev pub has_key : String → Running → Bool
has_key key r = key == r.key

-- Where a key is busy, an action with this key runs.
abbrev pub IsTracked : State → Type 0
IsTracked s = (key : String) → s.busy_key ≡ some key → any (has_key key) s.running ≡ true

pub IsTracked-free : (s : State) → s.busy_key ≡ none → IsTracked s
IsTracked-free s free key h = absurd (ground (arith, free, h))

pub run_busy_action-IsTracked :
    (key : String) (e : Effect) (w : Wait) (s : State) → IsTracked (run_busy_action key e w s).0
unfolding run_busy_action
run_busy_action-IsTracked key e w s k h =
    let same : key ≡ k = ground (arith, h) in
    rw
      (
        sym same,
        any-append (has_key key) s.running (record { key = key; wait = w } ∷ []),
        ==_refl key,
      )
      (ground arith)

any-with_wait :
    (key : String) (i : ℕ) (w : Wait) (rs : List Running)
    → any (has_key key) (with_wait i w rs) ≡ any (has_key key) rs
any-with_wait key i w [] = refl
any-with_wait key zero w (r ∷ rs) = refl
any-with_wait key (suc i) w (r ∷ rs) = ap (has_key key r ||◌) (any-with_wait key i w rs)

pub after_answer-IsTracked : (w : Wait) (s : State) → IsTracked s → IsTracked (after_answer w s)
unfolding after_answer
after_answer-IsTracked (option_saved r m) s h = h
after_answer-IsTracked (options_invalidated m) s h = h
after_answer-IsTracked (status_invalidated m) s h = h
after_answer-IsTracked profile_saved s h = h
after_answer-IsTracked profile_refreshed s h = h
after_answer-IsTracked code_sent s h = h
after_answer-IsTracked email_bound s h = h
after_answer-IsTracked email_refreshed s h = h
after_answer-IsTracked wechat_bound s h = h
after_answer-IsTracked wechat_refreshed s h = h

pub go_on-IsTracked : (i : ℕ) (p : Progress) (s : State) → IsTracked s → IsTracked (go_on i p s).0
unfolding go_on
go_on-IsTracked i (goes_on e w) s h = λ key busy. any-with_wait key i w s.running ∙ h key busy
go_on-IsTracked i (finishes m) s h = IsTracked-free (go_on i (finishes m) s).0 refl

pub succeed_with-IsTracked :
    (i : ℕ) (r : Option Running) (s : State) → IsTracked s → IsTracked (succeed_with i r s).0
unfolding succeed_with
succeed_with-IsTracked i none s h = h
succeed_with-IsTracked i (some r) s h =
    go_on-IsTracked i (progress r.wait) (after_answer r.wait s) (after_answer-IsTracked r.wait s h)

pub fail_with-IsTracked :
    (i : ℕ) (r : Option Running) (error : Thrown) (s : State)
    → IsTracked s
    → IsTracked (fail_with i r error s).0
unfolding fail_with
fail_with-IsTracked i none error s h = h
fail_with-IsTracked i (some r) error s h = IsTracked-free (fail_with i (some r) error s).0 refl

pub run_save-IsTracked :
    (key : String) (c : Checked) (m : String) (s : State) → IsTracked (run_save key c m s).0
unfolding run_save run_progress save_from
run_save-IsTracked key (refused e) m s = IsTracked-free (run_save key (refused e) m s).0 refl
run_save-IsTracked key (passed []) m s =
    run_busy_action-IsTracked key invalidate_options (options_invalidated m) s
run_save-IsTracked key (passed ((k, v) ∷ rest)) m s =
    run_busy_action-IsTracked key (update_option k v) (option_saved rest m) s
