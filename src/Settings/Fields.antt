-- ===== src/Settings/Fields.antt =====
-- The forms of components/settings-page.tsx and their first values.
use poolx.Common.{Bool, true, false, []}
use poolx.Common.Text.{Text, units}
use poolx.Settings.{UpdateSelfPayload}

-- `defaultSystemFields`, as a type.
pub record SystemFields : Type 0 where
  pub server_address : Text
  pub server_update_repo : Text
  pub kernel_type : Text
  pub mihomo_binary_path : Text
  pub mihomo_binary_version : Text
  pub mihomo_binary_source : Text
  pub kernel_auto_start : Bool
  pub clash_allow_lan : Bool
  pub clash_external_controller : Text
  pub clash_mode : Text
  pub clash_secret : Text
  pub node_test_default_url : Text
  pub node_test_default_timeout_ms : Text
  pub geoip_provider : Text
  pub password_login_enabled : Bool
  pub password_register_enabled : Bool
  pub email_verification_enabled : Bool
  pub github_oauth_enabled : Bool
  pub wechat_auth_enabled : Bool
  pub turnstile_check_enabled : Bool
  pub register_enabled : Bool
  pub smtp_server : Text
  pub smtp_port : Text
  pub smtp_account : Text
  pub smtp_token : Text
  pub github_client_id : Text
  pub github_client_secret : Text
  pub wechat_server_address : Text
  pub wechat_server_token : Text
  pub wechat_qrcode_image_url : Text
  pub turnstile_site_key : Text
  pub turnstile_secret_key : Text

pub record OperationFields : Type 0 where
  pub global_api_num : Text
  pub global_api_duration : Text
  pub global_web_num : Text
  pub global_web_duration : Text
  pub upload_num : Text
  pub upload_duration : Text
  pub download_num : Text
  pub download_duration : Text
  pub critical_num : Text
  pub critical_duration : Text
  pub server_address : Text

pub record OtherFields : Type 0 where
  pub notice : Text
  pub system_name : Text
  pub home_page_link : Text
  pub about : Text
  pub footer : Text

-- `defaultSystemFields`.
abbrev pub default_system_fields : SystemFields
default_system_fields = record {
  server_address = [];
  server_update_repo = units "Ly-star-bit/poolx";
  kernel_type = units "mihomo";
  mihomo_binary_path = [];
  mihomo_binary_version = [];
  mihomo_binary_source = [];
  kernel_auto_start = false;
  clash_allow_lan = false;
  clash_external_controller = units "127.0.0.1:19090";
  clash_mode = units "rule";
  clash_secret = units "3ebc195c9fbe81c01eb9299e3c6bf644";
  node_test_default_url = units "https://cp.cloudflare.com/generate_204";
  node_test_default_timeout_ms = units "8000";
  geoip_provider = units "disabled";
  password_login_enabled = true;
  password_register_enabled = true;
  email_verification_enabled = false;
  github_oauth_enabled = false;
  wechat_auth_enabled = false;
  turnstile_check_enabled = false;
  register_enabled = false;
  smtp_server = [];
  smtp_port = units "587";
  smtp_account = [];
  smtp_token = [];
  github_client_id = [];
  github_client_secret = [];
  wechat_server_address = [];
  wechat_server_token = [];
  wechat_qrcode_image_url = [];
  turnstile_site_key = [];
  turnstile_secret_key = [];
}

-- `defaultOperationFields`, `defaultOtherFields` and `defaultProfileFields`.
abbrev pub default_operation_fields : OperationFields
default_operation_fields = record {
  global_api_num = units "300";
  global_api_duration = units "180";
  global_web_num = units "300";
  global_web_duration = units "180";
  upload_num = units "50";
  upload_duration = units "60";
  download_num = units "50";
  download_duration = units "60";
  critical_num = units "100";
  critical_duration = units "1200";
  server_address = [];
}

abbrev pub default_other_fields : OtherFields
default_other_fields = record {
  notice = [];
  system_name = [];
  home_page_link = [];
  about = [];
  footer = [];
}

abbrev pub default_profile_fields : UpdateSelfPayload
default_profile_fields = record { username = []; display_name = []; password = [] }
