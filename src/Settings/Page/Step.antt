-- ===== src/Settings/Page/Step.antt =====
-- The events of components/settings-page.tsx and the step of the page.
use Prim.Native.String.{◌++◌ as str_append}
use poolx.Common.{
  ℕ, Bool, false, not, ◌&&◌, ◌||◌, List, [], ◌∷◌, ◌++◌, is_empty, Option, none, some, String,
  or_else, str_eq,
}
use poolx.Common.Text.{Text, units, trim}
use poolx.Ui.{Thrown, message_of}
use poolx.Auth.{AuthUser}
use poolx.Settings.{OptionItem, GeoIpPreviewResult, KernelBinaryInstallResult, PublicStatus}
use poolx.Settings.Entries.{
  about_entries, brand_entries, check_clash, check_limits, general_entries, integration_entries,
  passed, smtp_entries, update_entries,
}
use poolx.Settings.Options.{
  get_entry, get_browser_origin, options_to_map, or_given, or_text, load_system, load_operation,
  load_other, status_to_system, status_to_operation, status_to_other,
}
use poolx.Settings.Inputs.{Toggle, toggle_key}
use poolx.Settings.Actions.{
  Effect, State, copy_to_clipboard, generate_access_token, open_window, invalidate_options,
  preview_geoip, progress, reset_upload_input, run_save, said, warned,
}
use poolx.Settings.Page.{
  View, handle_bind_email, handle_bind_wechat, handle_email_verification,
  handle_mihomo_auto_download, handle_mihomo_inspect, handle_mihomo_upload_select,
  handle_profile_save, handle_toggle_option,
}

-- The buttons, by the tab on which they are.
pub data PersonalButton : Type 0 where
  save_profile reset_token copy_token bind_github send_code save_email save_wechat : PersonalButton

pub data ClashButton : Type 0 where
  save_clash inspect download : ClashButton
  select_binary : (chosen : Bool) → ClashButton

pub data SystemButton : Type 0 where
  save_update save_general save_smtp save_integrations save_limits test_geoip : SystemButton
  switch : Toggle → Bool → SystemButton

pub data OtherButton : Type 0 where
  save_brand save_about : OtherButton

-- The inputs of the personal tab.
pub data PersonalInput : Type 0 where
  set_username set_display_name set_password set_wechat_code set_email_address set_email_code
        set_turnstile_token :
      Text → PersonalInput

unfoldable pub set_personal : PersonalInput → State → State
set_personal (set_username value) s = record s {
  profile_fields = record s.profile_fields { username = value };
}
set_personal (set_display_name value) s = record s {
  profile_fields = record s.profile_fields { display_name = value };
}
set_personal (set_password value) s = record s {
  profile_fields = record s.profile_fields { password = value };
}
set_personal (set_wechat_code value) s = record s { wechat_code = value }
set_personal (set_email_address value) s = record s { email_address = value }
set_personal (set_email_code value) s = record s { email_code = value }
set_personal (set_turnstile_token value) s = record s { email_turnstile_token = value }

-- Whether a button is enabled.
abbrev is_busy : String → State → Bool
is_busy key s = elim s.busy_key [ none ↦ false | some k ↦ str_eq k key ]

unfoldable pub personal_enabled : View → State → PersonalButton → Bool
personal_enabled v s save_profile = not (is_busy "profile" s)
personal_enabled v s reset_token = not v.token_pending
personal_enabled v s copy_token = not (is_empty s.access_token)
personal_enabled v s bind_github = elim v.public_status.data_of [
  | none ↦ false
  | some status ↦ status.github_oauth && not (is_empty status.github_client_id)
]
personal_enabled v s send_code = not (is_busy "email-send" s)
personal_enabled v s save_email = not (is_busy "email-bind" s)
personal_enabled v s save_wechat = elim v.public_status.data_of [
  | none ↦ false
  | some status ↦ status.wechat_login && not (is_busy "wechat-bind" s)
]

unfoldable pub clash_enabled : View → State → ClashButton → Bool
clash_enabled v s save_clash = not (is_busy "clash-settings" s)
clash_enabled v s _ = not (v.inspect_pending || v.upload_pending || v.download_pending)

unfoldable pub system_enabled : View → State → SystemButton → Bool
system_enabled v s save_update = not (is_busy "system-runtime" s)
system_enabled v s save_general = not (is_busy "system-general" s)
system_enabled v s save_smtp = not (is_busy "system-smtp" s)
system_enabled v s save_integrations = not (is_busy "system-integrations" s)
system_enabled v s save_limits = not (is_busy "operation-rate-limit" s)
system_enabled v s test_geoip = not v.geoip_pending
system_enabled v s (switch toggle next) = not (is_busy (toggle_key toggle) s)

unfoldable pub other_enabled : State → OtherButton → Bool
other_enabled s save_brand = not (is_busy "other-brand" s)
other_enabled s save_about = not (is_busy "other-about" s)

-- The page of GitHub for the binding.
abbrev client_id_of : Option PublicStatus → Text
client_id_of none = []
client_id_of (some status) = status.github_client_id

abbrev pub github_url : Text → Text
github_url client_id =
    units "https://github.com/login/oauth/authorize?client_id="
    ++ (client_id ++ units "&scope=user:email")

-- What the buttons do.
unfoldable pub press_personal : View → PersonalButton → State → State × List Effect
press_personal v save_profile s = handle_profile_save s
press_personal v reset_token s = (s, generate_access_token ∷ [])
press_personal v copy_token s = (s, copy_to_clipboard s.access_token ∷ [])
press_personal v bind_github s =
    (s, open_window (github_url (client_id_of v.public_status.data_of)) ∷ [])
press_personal v send_code s = handle_email_verification v s
press_personal v save_email s = handle_bind_email s
press_personal v save_wechat s = handle_bind_wechat s

unfoldable pub press_clash : View → ClashButton → State → State × List Effect
press_clash v save_clash s =
    run_save "clash-settings" (check_clash s.system_fields) "Clash 设置已保存。" s
press_clash v inspect s = handle_mihomo_inspect v.windows s
press_clash v download s = handle_mihomo_auto_download v.windows s
press_clash v (select_binary chosen) s = handle_mihomo_upload_select v.windows chosen s

unfoldable pub press_system : SystemButton → State → State × List Effect
press_system save_update s =
    run_save "system-runtime" (passed (update_entries s.system_fields)) "更新设置已保存。" s
press_system save_general s =
    run_save "system-general" (passed (general_entries s.system_fields)) "通用设置已保存。" s
press_system save_smtp s =
    run_save "system-smtp" (passed (smtp_entries s.system_fields)) "SMTP 设置已保存。" s
press_system save_integrations s =
    run_save "system-integrations" (passed (integration_entries s.system_fields)) "第三方集成设置已保存。" s
press_system save_limits s =
    run_save "operation-rate-limit" (check_limits s.operation_fields) "限流设置已保存。" s
press_system test_geoip s = (
  record s { feedback = none },
  preview_geoip s.system_fields.geoip_provider (trim s.geoip_test_ip) ∷ [],
)
press_system (switch toggle next) s = handle_toggle_option toggle next s

unfoldable pub press_other : OtherButton → State → State × List Effect
press_other save_brand s =
    run_save "other-brand" (passed (brand_entries s.other_fields)) "公告与品牌设置已保存。" s
press_other save_about s =
    run_save "other-about" (passed (about_entries s.other_fields)) "关于页内容已保存。" s

-- The ends of the mutations.
pub data Mutation : Type 0 where
  token_reset : Text → Mutation
  geoip_previewed : GeoIpPreviewResult → Mutation
  uploaded downloaded inspected : KernelBinaryInstallResult → Mutation
  token_failed geoip_failed upload_failed download_failed inspect_failed : Thrown → Mutation
  upload_progressed : ℕ → Mutation

abbrev error_of : Thrown → State → State
error_of error s = warned (message_of "请求失败，请稍后重试。" error) s

unfoldable pub install : KernelBinaryInstallResult → State → State
install result s = record s {
  system_fields = record s.system_fields {
    mihomo_binary_path = result.install_path;
    mihomo_binary_version = units result.detected_version;
    mihomo_binary_source = result.binary_source;
    kernel_type = result.kernel_type;
  };
}

unfoldable pub settle : Mutation → State → State × List Effect
settle (token_reset token) s = (said "访问令牌已重置，并已在当前页面展示。" (record s { access_token = token }), [])
settle (token_failed error) s = (error_of error s, [])
settle (geoip_previewed result) s =
    (said "IP 归属解析测试成功。" (record s { geoip_preview_result = some result }), [])
settle (geoip_failed error) s = (error_of error (record s { geoip_preview_result = none }), [])
settle (upload_progressed progress) s = (record s { mihomo_upload_progress = progress }, [])
settle (uploaded result) s = (
  said (str_append "Mihomo 二进制已安装，版本为 " (str_append result.detected_version "。"))
      (record (install result s) { mihomo_upload_progress = 100 }),
  invalidate_options ∷ reset_upload_input ∷ [],
)
settle (upload_failed error) s =
    (error_of error (record s { mihomo_upload_progress = 0 }), reset_upload_input ∷ [])
settle (downloaded result) s = (
  said (str_append "已安装官方 Mihomo 版本 " (str_append result.detected_version "。")) (install result s),
  invalidate_options ∷ [],
)
settle (download_failed error) s = (error_of error s, [])
settle (inspected result) s = (
  said (str_append "Mihomo 二进制检查通过，版本为 " (str_append result.detected_version "。"))
      (install result s),
  invalidate_options ∷ [],
)
settle (inspect_failed error) s = (error_of error s, [])

-- The effects on the data of the queries.
unfoldable pub profile_loaded : AuthUser → State → State
profile_loaded profile s = record s {
  profile_fields = record {
    username = profile.username;
    display_name = profile.display_name;
    password = [];
  };
  email_address = or_else profile.email [];
}

unfoldable pub status_loaded : Option Text → PublicStatus → State → State
status_loaded origin status s =
    let resolved = or_text status.server_address (get_browser_origin origin) in
    record s {
      system_fields = status_to_system status resolved s.system_fields;
      other_fields = status_to_other status s.other_fields;
      operation_fields = status_to_operation resolved s.operation_fields;
    }

abbrev pub address_of : Option PublicStatus → Text
address_of none = []
address_of (some status) = status.server_address

unfoldable pub options_loaded : View → List OptionItem → State → State
options_loaded v items s =
    let option : String → Option Text = λ key. get_entry key (options_to_map (some items)) in
    let address =
      or_given (option "ServerAddress")
        (or_text (address_of v.public_status.data_of) (get_browser_origin v.origin)) in
    record s {
      system_fields = load_system option address;
      operation_fields = load_operation option address;
      other_fields = load_other option;
    }
