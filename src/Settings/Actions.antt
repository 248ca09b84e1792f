-- ===== src/Settings/Actions.antt =====
-- What runs behind the buttons of components/settings-page.tsx: `runBusyAction`, the loop of
-- `saveOptionEntries`, and the functions that follow a request, as a list of the actions that
-- await an answer. Several can run at once; `busy_key` is one cell that they share.
pub mod Laws
pub mod Tracking
use poolx.Common.{ℕ, zero, suc, List, [], ◌∷◌, ◌++◌, Option, none, some, String, is_empty}
use poolx.Common.Text.{Text, units}
use poolx.Ui.{FeedbackState, success, danger, Thrown, message_of}
use poolx.Settings.{GeoIpPreviewResult, UpdateSelfPayload}
use poolx.Settings.Fields.{
  SystemFields, OperationFields, OtherFields, default_system_fields, default_operation_fields,
  default_other_fields, default_profile_fields,
}
use poolx.Settings.Entries.{Entries, Checked, passed, refused}

pub data SettingsTab : Type 0 where
  personal operation clash system other : SettingsTab

-- What an action awaits, with what it does after it: for `option_saved` the entries that are left,
-- and the message of the end.
pub data Wait : Type 0 where
  option_saved : Entries → String → Wait
  options_invalidated status_invalidated : String → Wait
  profile_saved profile_refreshed code_sent email_bound email_refreshed wechat_bound
        wechat_refreshed :
      Wait

pub record Running : Type 0 where
  pub key : String
  pub wait : Wait

pub record State : Type 0 where
  pub active_tab : SettingsTab
  pub feedback : Option FeedbackState
  pub busy_key : Option String
  pub profile_fields : UpdateSelfPayload
  pub system_fields : SystemFields
  pub operation_fields : OperationFields
  pub other_fields : OtherFields
  pub mihomo_upload_progress : ℕ
  pub access_token : Text
  pub wechat_code : Text
  pub email_address : Text
  pub email_code : Text
  pub email_turnstile_token : Text
  pub geoip_test_ip : Text
  pub geoip_preview_result : Option GeoIpPreviewResult
  pub running : List Running

abbrev pub initial : State
initial = record {
  active_tab = personal;
  feedback = none;
  busy_key = none;
  profile_fields = default_profile_fields;
  system_fields = default_system_fields;
  operation_fields = default_operation_fields;
  other_fields = default_other_fields;
  mihomo_upload_progress = 0;
  access_token = [];
  wechat_code = [];
  email_address = [];
  email_code = [];
  email_turnstile_token = [];
  geoip_test_ip = units "8.8.8.8";
  geoip_preview_result = none;
  running = [];
}

-- The requests of the page; the refresh of the profile is the query and `refreshUser` together.
pub data Effect : Type 0 where
  update_option : String → Text → Effect
  invalidate_options invalidate_status refresh_profile : Effect
  update_self : UpdateSelfPayload → Effect
  send_email_verification : Text → (token : Option Text) → Effect
  bind_email : Text → Text → Effect
  bind_wechat : Text → Effect
  generate_access_token : Effect
  -- `window.open` and `copyToClipboard`.
  open_window copy_to_clipboard : Text → Effect
  preview_geoip : (provider : Text) (ip : Text) → Effect
  upload_mihomo download_mihomo inspect_mihomo : (install_path : Text) → Effect
  reset_upload_input : Effect

-- `setFeedback`.
abbrev pub said : String → State → State
said message s = record s { feedback = some (record { tone = success; message = message }) }

abbrev pub warned : String → State → State
warned message s = record s { feedback = some (record { tone = danger; message = message }) }

-- What follows an answer: the next request and what awaits it, or the message of the end.
pub data Progress : Type 0 where
  goes_on : Effect → Wait → Progress
  finishes : String → Progress

-- The loop of `saveOptionEntries`, before the next entry.
unfoldable pub save_from : Entries → String → Progress
save_from [] message = goes_on invalidate_options (options_invalidated message)
save_from ((key, value) ∷ rest) message =
    goes_on (update_option key value) (option_saved rest message)

unfoldable pub progress : Wait → Progress
progress (option_saved rest message) = save_from rest message
progress (options_invalidated message) = goes_on invalidate_status (status_invalidated message)
progress (status_invalidated message) = finishes message
progress profile_saved = goes_on refresh_profile profile_refreshed
progress profile_refreshed = finishes "个人资料已更新。"
progress code_sent = finishes "验证码已发送，请检查邮箱。"
progress email_bound = goes_on refresh_profile email_refreshed
progress email_refreshed = finishes "邮箱已绑定。"
progress wechat_bound = goes_on refresh_profile wechat_refreshed
progress wechat_refreshed = finishes "微信账号已绑定。"

-- What an action sets when its request has succeeded, but for the message of the end.
unfoldable pub after_answer : Wait → State → State
after_answer profile_refreshed s = record s {
  profile_fields = record s.profile_fields { password = [] };
}
after_answer email_bound s = record s { email_code = [] }
after_answer wechat_bound s = record s { wechat_code = [] }
after_answer _ s = s

-- `runBusyAction` up to the first request of the action.
unfoldable pub run_busy_action : String → Effect → Wait → State → State × List Effect
run_busy_action key request wait s = (
  record s {
    feedback = none;
    busy_key = some key;
    running = s.running ++ record { key = key; wait = wait } ∷ [];
  },
  request ∷ [],
)

-- `runBusyAction` with a save, after the checks that come before its first request: an error goes
-- to its `catch` and its `finally`.
unfoldable pub run_progress : String → Progress → State → State × List Effect
run_progress key (goes_on request wait) s = run_busy_action key request wait s
run_progress key (finishes message) s = (record (said message s) { busy_key = none }, [])

unfoldable pub run_save : String → Checked → String → State → State × List Effect
run_save key (refused error) message s = (record (warned error s) { busy_key = none }, [])
run_save key (passed entries) message s = run_progress key (save_from entries message) s

-- The action at a position of the list, and the list with another one there or without it.
abbrev pub running_at : ℕ → List Running → Option Running
running_at i [] = none
running_at zero (r ∷ rs) = some r
running_at (suc i) (r ∷ rs) = running_at i rs

abbrev pub with_wait : ℕ → Wait → List Running → List Running
with_wait i w [] = []
with_wait zero w (r ∷ rs) = record { key = r.key; wait = w } ∷ rs
with_wait (suc i) w (r ∷ rs) = r ∷ with_wait i w rs

abbrev pub without : ℕ → List Running → List Running
without i [] = []
without zero (r ∷ rs) = rs
without (suc i) (r ∷ rs) = r ∷ without i rs

-- The request that an action awaits has succeeded.
unfoldable pub go_on : ℕ → Progress → State → State × List Effect
go_on i (goes_on request wait) s = (record s { running = with_wait i wait s.running }, request ∷ [])
go_on i (finishes message) s =
    (record (said message s) { busy_key = none; running = without i s.running }, [])

unfoldable pub succeed_with : ℕ → Option Running → State → State × List Effect
succeed_with i none s = (s, [])
succeed_with i (some r) s = go_on i (progress r.wait) (after_answer r.wait s)

unfoldable pub succeed : ℕ → State → State × List Effect
succeed i s = succeed_with i (running_at i s.running) s

-- It has failed: the `catch` and the `finally` of `runBusyAction`.
unfoldable pub fail_with : ℕ → Option Running → Thrown → State → State × List Effect
fail_with i none error s = (s, [])
fail_with i (some r) error s = (
  record (warned (message_of "请求失败，请稍后重试。" error) s) {
    busy_key = none;
    running = without i s.running;
  },
  [],
)

unfoldable pub fail : ℕ → Thrown → State → State × List Effect
fail i error s = fail_with i (running_at i s.running) error s
