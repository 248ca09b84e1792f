-- ===== src/Settings/Page.antt =====
-- components/settings-page.tsx: what is on the screen, the handlers, and the step of the page.
-- A step on a control that is not shown, or is disabled, leaves the page as it is.
pub mod Step
pub mod Events
pub mod Laws
use Prim.Native.String.{◌++◌ as str_append}
use poolx.Common.{
  ℕ, Bool, true, false, not, ◌&&◌, ◌||◌, List, [], ◌∷◌, Option, none, some, String, if◌then◌else◌,
  is_empty, is_some, or_else, leb, str_eq,
}
use poolx.Common.Text.{Text, units, trim}
use poolx.Ui.{FeedbackState, success, danger, info, Thrown, message_of}
use poolx.Auth.{AuthUser}
use poolx.Settings.{
  OptionItem, GeoIpPreviewResult, KernelBinaryInstallResult, UpdateSelfPayload, PublicStatus,
}
use poolx.Settings.Fields.{SystemFields, OperationFields, OtherFields}
use poolx.Settings.Options.{
  options_to_map, get_entry, get_browser_origin, boolean_text, or_text, or_given, load_system,
  load_operation, load_other, status_to_system, status_to_operation, status_to_other,
}
use poolx.Settings.Entries.{
  Entries, Checked, passed, refused, check_clash, check_limits, update_entries, general_entries,
  smtp_entries, integration_entries, brand_entries, about_entries,
}
use poolx.Settings.Inputs.{Toggle, option_key, set_toggle, toggle_key, turnstile_check}
use poolx.Settings.Actions.{
  operation, Effect, SettingsTab, State, bind_email, bind_wechat, clash, code_sent, download_mihomo,
  email_bound, inspect_mihomo, other, personal, profile_saved, reset_upload_input, run_busy_action,
  run_save, send_email_verification, system, update_self, upload_mihomo, warned, wechat_bound,
}

-- What react-query keeps of a query, and which mutations run.
pub record Query {ℓ} (A : Type ℓ) : Type ℓ where
  pub is_loading : Bool
  pub is_error : Bool
  pub data_of : Option A

pub record View : Type 0 where
  pub is_root : Bool
  pub windows : Bool
  pub origin : Option Text
  pub profile : Query AuthUser
  pub public_status : Query PublicStatus
  pub options : Query (List OptionItem)
  pub token_pending : Bool
  pub geoip_pending : Bool
  pub upload_pending : Bool
  pub download_pending : Bool
  pub inspect_pending : Bool

-- `renderTabContent`: the branch for the personal tab and before it, and the branches behind it.
pub data Screen : Type 0 where
  loading profile_failed status_failed unavailable denied options_failed : Screen
  shown : SettingsTab → Screen

unfoldable pub root_screen : View → SettingsTab → Screen
root_screen v tab =
    if not v.is_root
    then denied
    else if v.options.is_loading
    then loading
    else if v.options.is_error
    then options_failed
    else shown tab

-- A tab `operation` has no cards of its own: it would show the last ones.
unfoldable pub tab_screen : View → SettingsTab → Screen
tab_screen v personal = shown personal
tab_screen v operation = root_screen v other
tab_screen v clash = root_screen v clash
tab_screen v system = root_screen v system
tab_screen v other = root_screen v other

unfoldable pub screen : View → SettingsTab → Screen
screen v tab =
    if v.profile.is_loading || v.public_status.is_loading
    then loading
    else if v.profile.is_error
    then profile_failed
    else if v.public_status.is_error
    then status_failed
    else if not (is_some v.public_status.data_of) || not (is_some v.profile.data_of)
    then unavailable
    else tab_screen v tab

-- `tabs`.
unfoldable pub tabs : Bool → List SettingsTab
tabs is_root = if is_root then personal ∷ clash ∷ system ∷ other ∷ [] else personal ∷ []

-- `defaultMihomoInstallPath` and `requireMihomoInstallPath`.
unfoldable pub default_mihomo_install_path : Bool → Text
default_mihomo_install_path windows = if windows then units ".\\mihomo.exe" else units "./mihomo"

unfoldable pub install_path : Bool → (allow_default : Bool) → State → Text
install_path windows allow_default s =
    or_text (trim s.system_fields.mihomo_binary_path)
      (if allow_default then default_mihomo_install_path windows else [])

-- The handlers of the personal tab.
unfoldable pub handle_profile_save : State → State × List Effect
handle_profile_save s =
    let payload : UpdateSelfPayload = record {
      username = trim s.profile_fields.username;
      display_name = trim s.profile_fields.display_name;
      password = s.profile_fields.password;
    } in
    run_busy_action "profile" (update_self payload) profile_saved s

abbrev token_of : Text → Option Text
token_of token = if is_empty token then none else some token

unfoldable pub turnstile_check_of : Option PublicStatus → Bool
turnstile_check_of none = false
turnstile_check_of (some status) = status.turnstile_check

unfoldable pub handle_email_verification : View → State → State × List Effect
handle_email_verification v s =
    if is_empty (trim s.email_address)
    then (warned "请输入要绑定的邮箱地址。" s, [])
    else if turnstile_check_of v.public_status.data_of && is_empty s.email_turnstile_token
    then (record s { feedback = some (record { tone = info; message = "请先完成人机验证。" }) }, [])
    else run_busy_action "email-send"
        (send_email_verification (trim s.email_address) (token_of s.email_turnstile_token))
        code_sent s

unfoldable pub handle_bind_email : State → State × List Effect
handle_bind_email s =
    if is_empty (trim s.email_address) || is_empty (trim s.email_code)
    then (warned "请输入邮箱地址和验证码。" s, [])
    else run_busy_action "email-bind" (bind_email (trim s.email_address) (trim s.email_code))
        email_bound s

unfoldable pub handle_bind_wechat : State → State × List Effect
handle_bind_wechat s =
    if is_empty (trim s.wechat_code)
    then (warned "请输入微信验证码。" s, [])
    else run_busy_action "wechat-bind" (bind_wechat (trim s.wechat_code)) wechat_bound s

-- `handleToggleOption`.
unfoldable pub handle_toggle_option : Toggle → Bool → State → State × List Effect
handle_toggle_option toggle next s =
    run_save (toggle_key toggle) (passed ((option_key toggle, boolean_text next) ∷ [])) "系统开关已更新。"
      (record s { system_fields = set_toggle toggle next s.system_fields })

-- The handlers of the kernel's binary; `missing` is what `requireMihomoInstallPath` does without a
-- path.
abbrev missing : State → State
missing s = warned "请先填写 Mihomo 二进制文件路径。" s

abbrev with_path : Text → State → State
with_path path s = record s {
  system_fields = record s.system_fields { mihomo_binary_path = path };
  feedback = none;
}

unfoldable pub handle_mihomo_upload_select : Bool → (chosen : Bool) → State → State × List Effect
handle_mihomo_upload_select windows false s = (s, [])
handle_mihomo_upload_select windows true s =
    let path = install_path windows true s in
    if is_empty path
    then (missing s, reset_upload_input ∷ [])
    else (record (with_path path s) { mihomo_upload_progress = 0 }, upload_mihomo path ∷ [])

unfoldable pub handle_mihomo_auto_download : Bool → State → State × List Effect
handle_mihomo_auto_download windows s =
    let path = install_path windows true s in
    if is_empty path then (missing s, []) else (with_path path s, download_mihomo path ∷ [])

unfoldable pub handle_mihomo_inspect : Bool → State → State × List Effect
handle_mihomo_inspect windows s =
    let path = install_path windows false s in
    if is_empty path
    then (missing s, [])
    else (record s { feedback = none }, inspect_mihomo path ∷ [])
