-- ===== src/Settings/Inputs.antt =====
-- The inputs of components/settings-page.tsx: a type per card, and what each input sets.
use poolx.Common.{Bool, String}
use poolx.Common.Text.{Text}
use poolx.Settings.Fields.{SystemFields, OperationFields, OtherFields}

-- The card of the kernel.
pub data KernelInput : Type 0 where
  set_kernel_type : Text → KernelInput
  set_mihomo_binary_path : Text → KernelInput

unfoldable pub set_kernel : KernelInput → SystemFields → SystemFields
set_kernel (set_kernel_type value) previous = record previous { kernel_type = value }
set_kernel (set_mihomo_binary_path value) previous = record previous { mihomo_binary_path = value }

-- The card of the parameters of Clash.
pub data RuntimeInput : Type 0 where
  set_clash_external_controller : Text → RuntimeInput
  set_clash_mode : Text → RuntimeInput
  set_clash_secret : Text → RuntimeInput
  set_clash_allow_lan : Bool → RuntimeInput
  set_kernel_auto_start : Bool → RuntimeInput

unfoldable pub set_runtime : RuntimeInput → SystemFields → SystemFields
set_runtime (set_clash_external_controller value) previous = record previous {
  clash_external_controller = value;
}
set_runtime (set_clash_mode value) previous = record previous { clash_mode = value }
set_runtime (set_clash_secret value) previous = record previous { clash_secret = value }
set_runtime (set_clash_allow_lan value) previous = record previous { clash_allow_lan = value }
set_runtime (set_kernel_auto_start value) previous = record previous { kernel_auto_start = value }

-- The card of the latency test.
pub data LatencyInput : Type 0 where
  set_node_test_default_url : Text → LatencyInput
  set_node_test_default_timeout_ms : Text → LatencyInput

unfoldable pub set_latency : LatencyInput → SystemFields → SystemFields
set_latency (set_node_test_default_url value) previous = record previous {
  node_test_default_url = value;
}
set_latency (set_node_test_default_timeout_ms value) previous = record previous {
  node_test_default_timeout_ms = value;
}

-- The card of SMTP.
pub data SmtpInput : Type 0 where
  set_smtp_server : Text → SmtpInput
  set_smtp_port : Text → SmtpInput
  set_smtp_account : Text → SmtpInput
  set_smtp_token : Text → SmtpInput

unfoldable pub set_smtp : SmtpInput → SystemFields → SystemFields
set_smtp (set_smtp_server value) previous = record previous { smtp_server = value }
set_smtp (set_smtp_port value) previous = record previous { smtp_port = value }
set_smtp (set_smtp_account value) previous = record previous { smtp_account = value }
set_smtp (set_smtp_token value) previous = record previous { smtp_token = value }

-- The card of OAuth, WeChat and Turnstile.
pub data IntegrationInput : Type 0 where
  set_github_client_id : Text → IntegrationInput
  set_github_client_secret : Text → IntegrationInput
  set_wechat_server_address : Text → IntegrationInput
  set_wechat_server_token : Text → IntegrationInput
  set_wechat_qrcode_image_url : Text → IntegrationInput
  set_turnstile_site_key : Text → IntegrationInput
  set_turnstile_secret_key : Text → IntegrationInput

unfoldable pub set_integration : IntegrationInput → SystemFields → SystemFields
set_integration (set_github_client_id value) previous = record previous { github_client_id = value }
set_integration (set_github_client_secret value) previous = record previous {
  github_client_secret = value;
}
set_integration (set_wechat_server_address value) previous = record previous {
  wechat_server_address = value;
}
set_integration (set_wechat_server_token value) previous = record previous {
  wechat_server_token = value;
}
set_integration (set_wechat_qrcode_image_url value) previous = record previous {
  wechat_qrcode_image_url = value;
}
set_integration (set_turnstile_site_key value) previous = record previous {
  turnstile_site_key = value;
}
set_integration (set_turnstile_secret_key value) previous = record previous {
  turnstile_secret_key = value;
}

-- The cards of the update and of the general settings.
pub data GeneralInput : Type 0 where
  set_server_update_repo : Text → GeneralInput
  set_server_address : Text → GeneralInput
  set_geoip_provider : Text → GeneralInput

unfoldable pub set_general : GeneralInput → SystemFields → SystemFields
set_general (set_server_update_repo value) previous = record previous { server_update_repo = value }
set_general (set_server_address value) previous = record previous { server_address = value }
set_general (set_geoip_provider value) previous = record previous { geoip_provider = value }

-- The card of the rate limits.
pub data LimitInput : Type 0 where
  set_global_api_num : Text → LimitInput
  set_global_api_duration : Text → LimitInput
  set_global_web_num : Text → LimitInput
  set_global_web_duration : Text → LimitInput
  set_upload_num : Text → LimitInput
  set_upload_duration : Text → LimitInput
  set_download_num : Text → LimitInput
  set_download_duration : Text → LimitInput
  set_critical_num : Text → LimitInput
  set_critical_duration : Text → LimitInput

unfoldable pub set_limit : LimitInput → OperationFields → OperationFields
set_limit (set_global_api_num value) previous = record previous { global_api_num = value }
set_limit (set_global_api_duration value) previous = record previous { global_api_duration = value }
set_limit (set_global_web_num value) previous = record previous { global_web_num = value }
set_limit (set_global_web_duration value) previous = record previous { global_web_duration = value }
set_limit (set_upload_num value) previous = record previous { upload_num = value }
set_limit (set_upload_duration value) previous = record previous { upload_duration = value }
set_limit (set_download_num value) previous = record previous { download_num = value }
set_limit (set_download_duration value) previous = record previous { download_duration = value }
set_limit (set_critical_num value) previous = record previous { critical_num = value }
set_limit (set_critical_duration value) previous = record previous { critical_duration = value }

-- The cards of the notice, the brand and the about page.
pub data OtherInput : Type 0 where
  set_system_name : Text → OtherInput
  set_home_page_link : Text → OtherInput
  set_notice : Text → OtherInput
  set_footer : Text → OtherInput
  set_about : Text → OtherInput

unfoldable pub set_other : OtherInput → OtherFields → OtherFields
set_other (set_system_name value) previous = record previous { system_name = value }
set_other (set_home_page_link value) previous = record previous { home_page_link = value }
set_other (set_notice value) previous = record previous { notice = value }
set_other (set_footer value) previous = record previous { footer = value }
set_other (set_about value) previous = record previous { about = value }

-- The switches of the logins: each is saved at once.
pub data Toggle : Type 0 where
  password_login password_register email_verification github_oauth wechat_auth turnstile_check
        register :
      Toggle

unfoldable pub option_key : Toggle → String
option_key password_login = "PasswordLoginEnabled"
option_key password_register = "PasswordRegisterEnabled"
option_key email_verification = "EmailVerificationEnabled"
option_key github_oauth = "GitHubOAuthEnabled"
option_key wechat_auth = "WeChatAuthEnabled"
option_key turnstile_check = "TurnstileCheckEnabled"
option_key register = "RegisterEnabled"

-- The `busyKey` of its action.
unfoldable pub toggle_key : Toggle → String
toggle_key password_login = "toggle-PasswordLoginEnabled"
toggle_key password_register = "toggle-PasswordRegisterEnabled"
toggle_key email_verification = "toggle-EmailVerificationEnabled"
toggle_key github_oauth = "toggle-GitHubOAuthEnabled"
toggle_key wechat_auth = "toggle-WeChatAuthEnabled"
toggle_key turnstile_check = "toggle-TurnstileCheckEnabled"
toggle_key register = "toggle-RegisterEnabled"

unfoldable pub is_on : Toggle → SystemFields → Bool
is_on password_login s = s.password_login_enabled
is_on password_register s = s.password_register_enabled
is_on email_verification s = s.email_verification_enabled
is_on github_oauth s = s.github_oauth_enabled
is_on wechat_auth s = s.wechat_auth_enabled
is_on turnstile_check s = s.turnstile_check_enabled
is_on register s = s.register_enabled

unfoldable pub set_toggle : Toggle → Bool → SystemFields → SystemFields
set_toggle password_login value previous = record previous { password_login_enabled = value }
set_toggle password_register value previous = record previous { password_register_enabled = value }
set_toggle email_verification value previous = record previous {
  email_verification_enabled = value;
}
set_toggle github_oauth value previous = record previous { github_oauth_enabled = value }
set_toggle wechat_auth value previous = record previous { wechat_auth_enabled = value }
set_toggle turnstile_check value previous = record previous { turnstile_check_enabled = value }
set_toggle register value previous = record previous { register_enabled = value }
