-- ===== src/Settings/Page/Laws.antt =====
-- The page of the settings: what a user who is not root can send, what `busyKey` says, and a
-- switch whose save fails.
pub mod Busy
use poolx.Common.{
  ℕ, zero, suc, Bool, true, false, not, ◌&&◌, ◌||◌, List, [], ◌∷◌, ◌++◌, Option, none, some, String,
  if◌then◌else◌, is_some, is_empty, All, ◌≡◌, refl, sym, ap, ◌∙◌, arith, Bool-cases, inl, inr,
}
use poolx.Common.Text.{Text, trim}
use poolx.Ui.{Thrown, message_of}
use poolx.Settings.Fields.{SystemFields}
use poolx.Settings.Inputs.{
  Toggle, email_verification, github_oauth, is_on, password_login, password_register, register,
  set_toggle, turnstile_check, wechat_auth,
}
use poolx.Settings.Page.Step.{
  PersonalButton, bind_github, copy_token, github_url, press_personal, reset_token, save_email,
  save_profile, save_wechat, send_code,
}
use poolx.Settings.Actions.{
  operation, Effect, SettingsTab, State, bind_email, bind_wechat, clash, fail, fail_with,
  copy_to_clipboard, generate_access_token, open_window, other, personal, run_busy_action,
  run_progress, run_save, save_from, send_email_verification, system, update_self, warned,
}
use poolx.Settings.Page.{
  View, denied, handle_bind_email, handle_bind_wechat, handle_email_verification,
  handle_profile_save, handle_toggle_option, root_screen, screen, tab_screen, turnstile_check_of,
}
use poolx.Settings.Page.Events.{
  Control, is_enabled, is_shown, personal_button, personal_input, step, tab_of, use_control, used,
}

-- The requests about the user's own account, the copy of its token, and the page of GitHub that binds it.
abbrev pub IsPersonal : Effect → Type 0
IsPersonal (update_self payload) = Unit
IsPersonal (send_email_verification address token) = Unit
IsPersonal (bind_email address code) = Unit
IsPersonal (bind_wechat code) = Unit
IsPersonal generate_access_token = Unit
IsPersonal (copy_to_clipboard token) = Unit
IsPersonal (open_window url) = (client_id : Text) × (url ≡ github_url client_id)
IsPersonal _ = ⊥

root_screen-denied : (v : View) (tab : SettingsTab) → v.is_root ≡ false → root_screen v tab ≡ denied
unfolding root_screen
root_screen-denied v tab h = rw h refl

tab_screen-hidden :
    (v : View) (tab t : SettingsTab)
    → v.is_root ≡ false
    → is_shown t (tab_screen v tab) ≡ true
    → t ≡ personal
unfolding tab_screen
tab_screen-hidden v personal personal root h = refl
tab_screen-hidden v personal operation root h = absurd (ground (arith, h))
tab_screen-hidden v personal clash root h = absurd (ground (arith, h))
tab_screen-hidden v personal system root h = absurd (ground (arith, h))
tab_screen-hidden v personal other root h = absurd (ground (arith, h))
tab_screen-hidden v operation t root h = absurd (ground (arith, root_screen-denied v other root, h))
tab_screen-hidden v clash t root h = absurd (ground (arith, root_screen-denied v clash root, h))
tab_screen-hidden v system t root h = absurd (ground (arith, root_screen-denied v system root, h))
tab_screen-hidden v other t root h = absurd (ground (arith, root_screen-denied v other root, h))

-- A user who is not root sees no card but those of the personal tab.
screen-personal :
    (v : View) (tab t : SettingsTab)
    → v.is_root ≡ false
    → is_shown t (screen v tab) ≡ true
    → t ≡ personal
unfolding screen
screen-personal v tab t root h = ground (arith, tab_screen-hidden v tab t root)

handle_email_verification-IsPersonal :
    (v : View) (s : State) → All IsPersonal (handle_email_verification v s).1
unfolding handle_email_verification run_busy_action
handle_email_verification-IsPersonal v s = elim (Bool-cases (is_empty (trim s.email_address))) [
  | inl e ↦ rw e tt
  | inr e ↦
      elim (Bool-cases
        (turnstile_check_of v.public_status.data_of && is_empty s.email_turnstile_token)) [
          | inl f ↦ rw (e, f) tt
          | inr f ↦ rw (e, f) (tt, tt)
        ]
]

handle_bind_email-IsPersonal : (s : State) → All IsPersonal (handle_bind_email s).1
unfolding handle_bind_email run_busy_action
handle_bind_email-IsPersonal s =
    elim (Bool-cases (is_empty (trim s.email_address) || is_empty (trim s.email_code))) [
      | inl e ↦ rw e tt
      | inr e ↦ rw e (tt, tt)
    ]

handle_bind_wechat-IsPersonal : (s : State) → All IsPersonal (handle_bind_wechat s).1
unfolding handle_bind_wechat run_busy_action
handle_bind_wechat-IsPersonal s = elim (Bool-cases (is_empty (trim s.wechat_code))) [
  | inl e ↦ rw e tt
  | inr e ↦ rw e (tt, tt)
]

press_personal-IsPersonal :
    (v : View) (b : PersonalButton) (s : State) → All IsPersonal (press_personal v b s).1
unfolding press_personal handle_profile_save run_busy_action
press_personal-IsPersonal v save_profile s = (tt, tt)
press_personal-IsPersonal v reset_token s = (tt, tt)
press_personal-IsPersonal v copy_token s = (tt, tt)
press_personal-IsPersonal v bind_github s = ((_, refl), tt)
press_personal-IsPersonal v send_code s = handle_email_verification-IsPersonal v s
press_personal-IsPersonal v save_email s = handle_bind_email-IsPersonal s
press_personal-IsPersonal v save_wechat s = handle_bind_wechat-IsPersonal s

use_control-IsPersonal :
    (v : View) (control : Control) (s : State)
    → tab_of control ≡ personal
    → All IsPersonal (use_control v control s).1
unfolding use_control tab_of
use_control-IsPersonal v (personal_button b) s h = press_personal-IsPersonal v b s
use_control-IsPersonal v (personal_input i) s h = tt
use_control-IsPersonal v _ s h = absurd (ground (arith, h))

-- Whatever control of the page is used by somebody who is not root, shown or not, in any state and
-- on any tab: the requests sent at once are only about the own account (the profile, the access
-- token, the bindings), and the only page opened is that of GitHub for the binding; no option is
-- saved, no kernel is touched, no GeoIP service is asked.
pub step-IsPersonal :
    (v : View) (control : Control) (s : State)
    → v.is_root ≡ false
    → All IsPersonal (step v (used control) s).1
unfolding step
step-IsPersonal v control s root =
    elim (Bool-cases (is_shown (tab_of control) (screen v s.active_tab))) [
      | inr e ↦ rw e tt
      | inl e ↦
          let mine =
            use_control-IsPersonal v control s
              (screen-personal v s.active_tab (tab_of control) root e) in
          elim (Bool-cases (is_enabled v s control)) [
            | inl f ↦ rw (e, f) mine
            | inr f ↦ rw (e, f) tt
          ]
    ]

set_toggle-is_on :
    (toggle : Toggle) (next : Bool) (fields : SystemFields)
    → is_on toggle (set_toggle toggle next fields) ≡ next
unfolding set_toggle is_on
set_toggle-is_on password_login next fields = refl
set_toggle-is_on password_register next fields = refl
set_toggle-is_on email_verification next fields = refl
set_toggle-is_on github_oauth next fields = refl
set_toggle-is_on wechat_auth next fields = refl
set_toggle-is_on turnstile_check next fields = refl
set_toggle-is_on register next fields = refl

-- A switch is not set back: when nothing else runs and the request of a switch fails, the page
-- shows the error, yet the switch stands at the value that was not saved.
pub fail-handle_toggle_option :
    (toggle : Toggle) (next : Bool) (error : Thrown) (s : State)
    → s.running ≡ []
    → let t = (fail 0 error (handle_toggle_option toggle next s).0).0 in
      (is_on toggle t.system_fields ≡ next)
      × (t.feedback ≡ (warned (message_of "请求失败，请稍后重试。" error) s).feedback)
      × (t.busy_key ≡ none)
      × (t.running ≡ [])
unfolding handle_toggle_option run_save run_progress save_from run_busy_action fail fail_with
fail-handle_toggle_option toggle next error s idle =
    rw idle (set_toggle-is_on toggle next s.system_fields, refl, refl, refl)
