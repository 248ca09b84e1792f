-- ===== src/Settings/Page/Laws/Busy.antt =====
-- What `busyKey` of the settings page says of the actions that run.
use poolx.Common.{Bool, true, false, ◌||◌, ◌&&◌, any, is_empty, Bool-cases, inl, inr, string_eq}
use poolx.Common.Text.{trim}
use poolx.Settings.Actions.Tracking.{
  IsTracked, run_busy_action-IsTracked, succeed_with-IsTracked, fail_with-IsTracked,
  run_save-IsTracked,
}
use poolx.Settings.Entries.{check_clash}
use poolx.Settings.Page.Events.{
  Control, Event, clash_button, failed, general_input, geoip_ip_input, integration_input,
  is_enabled, is_shown, kernel_input, latency_input, limit_input, options_changed, other_button,
  other_input, personal_button, personal_input, profile_changed, runtime_input, settled, smtp_input,
  status_changed, step, succeeded, system_button, tab_clicked, tab_eq, tab_of, use_control, used,
}
use poolx.Settings.Page.{
  View, handle_bind_email, handle_bind_wechat, handle_email_verification,
  handle_mihomo_auto_download, handle_mihomo_inspect, handle_mihomo_upload_select,
  handle_profile_save, handle_toggle_option, install_path, screen, tabs, turnstile_check_of,
}
use poolx.Settings.Page.Step.{
  ClashButton, Mutation, OtherButton, PersonalButton, PersonalInput, SystemButton, download,
  download_failed, downloaded, geoip_failed, geoip_previewed, inspect, inspect_failed, inspected,
  install, options_loaded, press_clash, press_other, press_personal, press_system, profile_loaded,
  bind_github, copy_token, reset_token, save_about, save_brand, save_clash, save_email,
  save_general, save_integrations, save_limits, save_profile, save_smtp, save_update, save_wechat,
  select_binary, send_code, set_display_name, set_email_address, set_email_code, set_password,
  set_personal, set_turnstile_token, set_username, set_wechat_code, settle, status_loaded, switch,
  test_geoip, token_failed, token_reset, upload_failed, upload_progressed, uploaded,
}
use poolx.Settings.Actions.{
  State, code_sent, email_bound, fail, profile_saved, running_at, succeed, wechat_bound,
}

handle_email_verification-IsTracked :
    (v : View) (s : State) → IsTracked s → IsTracked (handle_email_verification v s).0
unfolding handle_email_verification
handle_email_verification-IsTracked v s h = elim (Bool-cases (is_empty (trim s.email_address))) [
  | inl e ↦ rw e h
  | inr e ↦
      elim (Bool-cases
        (turnstile_check_of v.public_status.data_of && is_empty s.email_turnstile_token)) [
          | inl f ↦ rw (e, f) h
          | inr f ↦ rw (e, f) (run_busy_action-IsTracked "email-send" _ code_sent s)
        ]
]

handle_bind_email-IsTracked : (s : State) → IsTracked s → IsTracked (handle_bind_email s).0
unfolding handle_bind_email
handle_bind_email-IsTracked s h =
    elim (Bool-cases (is_empty (trim s.email_address) || is_empty (trim s.email_code))) [
      | inl e ↦ rw e h
      | inr e ↦ rw e (run_busy_action-IsTracked "email-bind" _ email_bound s)
    ]

handle_bind_wechat-IsTracked : (s : State) → IsTracked s → IsTracked (handle_bind_wechat s).0
unfolding handle_bind_wechat
handle_bind_wechat-IsTracked s h = elim (Bool-cases (is_empty (trim s.wechat_code))) [
  | inl e ↦ rw e h
  | inr e ↦ rw e (run_busy_action-IsTracked "wechat-bind" _ wechat_bound s)
]

press_personal-IsTracked :
    (v : View) (b : PersonalButton) (s : State) → IsTracked s → IsTracked (press_personal v b s).0
unfolding press_personal handle_profile_save
press_personal-IsTracked v save_profile s h = run_busy_action-IsTracked "profile" _ profile_saved s
press_personal-IsTracked v reset_token s h = h
press_personal-IsTracked v copy_token s h = h
press_personal-IsTracked v bind_github s h = h
press_personal-IsTracked v send_code s h = handle_email_verification-IsTracked v s h
press_personal-IsTracked v save_email s h = handle_bind_email-IsTracked s h
press_personal-IsTracked v save_wechat s h = handle_bind_wechat-IsTracked s h

handle_mihomo_inspect-IsTracked :
    (windows : Bool) (s : State) → IsTracked s → IsTracked (handle_mihomo_inspect windows s).0
unfolding handle_mihomo_inspect
handle_mihomo_inspect-IsTracked windows s h =
    elim (Bool-cases (is_empty (install_path windows false s))) [ inl e ↦ rw e h | inr e ↦ rw e h ]

handle_mihomo_auto_download-IsTracked :
    (windows : Bool) (s : State) → IsTracked s → IsTracked (handle_mihomo_auto_download windows s).0
unfolding handle_mihomo_auto_download
handle_mihomo_auto_download-IsTracked windows s h =
    elim (Bool-cases (is_empty (install_path windows true s))) [ inl e ↦ rw e h | inr e ↦ rw e h ]

handle_mihomo_upload_select-IsTracked :
    (windows chosen : Bool) (s : State)
    → IsTracked s
    → IsTracked (handle_mihomo_upload_select windows chosen s).0
unfolding handle_mihomo_upload_select
handle_mihomo_upload_select-IsTracked windows false s h = h
handle_mihomo_upload_select-IsTracked windows true s h =
    elim (Bool-cases (is_empty (install_path windows true s))) [ inl e ↦ rw e h | inr e ↦ rw e h ]

press_clash-IsTracked :
    (v : View) (b : ClashButton) (s : State) → IsTracked s → IsTracked (press_clash v b s).0
unfolding press_clash
press_clash-IsTracked v save_clash s h = run_save-IsTracked _ (check_clash s.system_fields) _ s
press_clash-IsTracked v inspect s h = handle_mihomo_inspect-IsTracked v.windows s h
press_clash-IsTracked v download s h = handle_mihomo_auto_download-IsTracked v.windows s h
press_clash-IsTracked v (select_binary c) s h =
    handle_mihomo_upload_select-IsTracked v.windows c s h

press_system-IsTracked :
    (b : SystemButton) (s : State) → IsTracked s → IsTracked (press_system b s).0
unfolding press_system handle_toggle_option
press_system-IsTracked save_update s h = run_save-IsTracked _ _ _ s
press_system-IsTracked save_general s h = run_save-IsTracked _ _ _ s
press_system-IsTracked save_smtp s h = run_save-IsTracked _ _ _ s
press_system-IsTracked save_integrations s h = run_save-IsTracked _ _ _ s
press_system-IsTracked save_limits s h = run_save-IsTracked _ _ _ s
press_system-IsTracked test_geoip s h = h
press_system-IsTracked (switch toggle next) s h = run_save-IsTracked _ _ _ _

press_other-IsTracked : (b : OtherButton) (s : State) → IsTracked s → IsTracked (press_other b s).0
unfolding press_other
press_other-IsTracked save_brand s h = run_save-IsTracked _ _ _ s
press_other-IsTracked save_about s h = run_save-IsTracked _ _ _ s

set_personal-IsTracked :
    (i : PersonalInput) (s : State) → IsTracked s → IsTracked (set_personal i s)
unfolding set_personal
set_personal-IsTracked (set_username value) s h = h
set_personal-IsTracked (set_display_name value) s h = h
set_personal-IsTracked (set_password value) s h = h
set_personal-IsTracked (set_wechat_code value) s h = h
set_personal-IsTracked (set_email_address value) s h = h
set_personal-IsTracked (set_email_code value) s h = h
set_personal-IsTracked (set_turnstile_token value) s h = h

use_control-IsTracked :
    (v : View) (control : Control) (s : State) → IsTracked s → IsTracked (use_control v control s).0
unfolding use_control
use_control-IsTracked v (personal_button b) s h = press_personal-IsTracked v b s h
use_control-IsTracked v (clash_button b) s h = press_clash-IsTracked v b s h
use_control-IsTracked v (system_button b) s h = press_system-IsTracked b s h
use_control-IsTracked v (other_button b) s h = press_other-IsTracked b s h
use_control-IsTracked v (personal_input i) s h = set_personal-IsTracked i s h
use_control-IsTracked v (kernel_input i) s h = h
use_control-IsTracked v (runtime_input i) s h = h
use_control-IsTracked v (latency_input i) s h = h
use_control-IsTracked v (smtp_input i) s h = h
use_control-IsTracked v (integration_input i) s h = h
use_control-IsTracked v (general_input i) s h = h
use_control-IsTracked v (geoip_ip_input i) s h = h
use_control-IsTracked v (limit_input i) s h = h
use_control-IsTracked v (other_input i) s h = h

settle-IsTracked : (m : Mutation) (s : State) → IsTracked s → IsTracked (settle m s).0
unfolding settle install
settle-IsTracked (token_reset result) s h = h
settle-IsTracked (geoip_previewed result) s h = h
settle-IsTracked (uploaded result) s h = h
settle-IsTracked (downloaded result) s h = h
settle-IsTracked (inspected result) s h = h
settle-IsTracked (token_failed result) s h = h
settle-IsTracked (geoip_failed result) s h = h
settle-IsTracked (upload_failed result) s h = h
settle-IsTracked (download_failed result) s h = h
settle-IsTracked (inspect_failed result) s h = h
settle-IsTracked (upload_progressed result) s h = h

-- Where a button is held back as busy, an action with its key runs: whatever happens on the page,
-- in any order (clicks, inputs, answers and failures of the actions, the ends of the mutations,
-- new data of the queries), this stays true, so no button waits for an answer that is not due.
pub step-IsTracked : (v : View) (e : Event) (s : State) → IsTracked s → IsTracked (step v e s).0
unfolding step succeed fail profile_loaded status_loaded options_loaded
step-IsTracked v (tab_clicked tab) s h = elim (Bool-cases (any (tab_eq tab) (tabs v.is_root))) [
  | inl e ↦ rw e h
  | inr e ↦ rw e h
]
step-IsTracked v (used control) s h =
    elim (Bool-cases
      (is_shown (tab_of control) (screen v s.active_tab) && is_enabled v s control)) [
        | inl e ↦ rw e (use_control-IsTracked v control s h)
        | inr e ↦ rw e h
      ]
step-IsTracked v (succeeded i) s h = succeed_with-IsTracked i (running_at i s.running) s h
step-IsTracked v (failed i error) s h = fail_with-IsTracked i (running_at i s.running) error s h
step-IsTracked v (settled mutation) s h = settle-IsTracked mutation s h
step-IsTracked v (profile_changed profile) s h = h
step-IsTracked v (status_changed status) s h = h
step-IsTracked v (options_changed items) s h = h
