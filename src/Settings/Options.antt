-- ===== src/Settings/Options.antt =====
-- How the forms of components/settings-page.tsx are filled from the options and from the
-- public status. `origin` is the origin of the browser's window, `none` where there is no window.
use poolx.Common.{
  Bool, true, false, List, [], ◌∷◌, Option, none, some, String, if◌then◌else◌, or_else, is_empty,
  str_eq, ◌==◌, list_eq, nat_eq,
}
use poolx.Common.Text.{Text, units, trim}
use poolx.Settings.{OptionItem, PublicStatus}
use poolx.Settings.Fields.{SystemFields, OperationFields, OtherFields}

-- `accumulator[key] = value`.
unfoldable pub set_entry : String → Text → List (String × Text) → List (String × Text)
set_entry key value [] = (key, value) ∷ []
set_entry key value ((k, v) ∷ rest) =
    if str_eq k key then (k, value) ∷ rest else (k, v) ∷ set_entry key value rest

unfoldable pub add_entries : List (String × Text) → List OptionItem → List (String × Text)
add_entries accumulator [] = accumulator
add_entries accumulator (option ∷ options) =
    add_entries (set_entry option.key option.value accumulator) options

-- `optionsToMap`.
unfoldable pub options_to_map : Option (List OptionItem) → List (String × Text)
options_to_map options = add_entries [] (or_else options [])

unfoldable pub get_entry : String → List (String × Text) → Option Text
get_entry key [] = none
get_entry key ((k, v) ∷ rest) = if str_eq k key then some v else get_entry key rest

-- `toBoolean`.
unfoldable pub to_boolean : Option Text → Bool → Bool
to_boolean none fallback = fallback
to_boolean (some value) fallback = value == units "true"

-- `String(value)` of a Boolean.
abbrev pub boolean_text : Bool → Text
boolean_text true = units "true"
boolean_text false = units "false"

-- `value.replace(/\/+$/, '')`.
unfoldable pub strip_slashes : Text → Text
strip_slashes [] = []
strip_slashes (c ∷ s) =
    let rest = strip_slashes s in
    if c == b'/' then (if is_empty rest then [] else c ∷ rest) else c ∷ rest

-- `normalizeServerUrl`.
unfoldable pub normalize_server_url : Text → Text
normalize_server_url value = strip_slashes (trim value)

-- `getBrowserOrigin`.
unfoldable pub get_browser_origin : Option Text → Text
get_browser_origin none = []
get_browser_origin (some origin) = normalize_server_url origin

-- `a || b` of texts.
abbrev pub or_text : Text → Text → Text
or_text a b = if is_empty a then b else a

-- `a || b` where `a` may be missing.
abbrev pub or_given : Option Text → Text → Text
or_given none b = b
or_given (some a) b = or_text a b

-- The form of the system settings after the options were loaded.
unfoldable pub load_system : (String → Option Text) → (server_address : Text) → SystemFields
load_system option address = record {
  server_address = address;
  server_update_repo = or_else (option "ServerUpdateRepo") (units "Ly-star-bit/poolx");
  kernel_type = or_else (option "KernelType") (units "mihomo");
  mihomo_binary_path = or_else (option "MihomoBinaryPath") [];
  mihomo_binary_version = or_else (option "MihomoBinaryVersion") [];
  mihomo_binary_source = or_else (option "MihomoBinarySource") [];
  kernel_auto_start = to_boolean (option "KernelAutoStart") false;
  clash_allow_lan = to_boolean (option "ClashAllowLAN") false;
  clash_external_controller = or_else (option "ClashExternalController") (units "127.0.0.1:19090");
  clash_mode = or_else (option "ClashMode") (units "rule");
  clash_secret = or_else (option "ClashSecret") (units "3ebc195c9fbe81c01eb9299e3c6bf644");
  node_test_default_url =
      or_else (option "NodeTestDefaultURL") (units "https://cp.cloudflare.com/generate_204");
  node_test_default_timeout_ms = or_else (option "NodeTestDefaultTimeoutMS") (units "8000");
  geoip_provider = or_else (option "GeoIPProvider") (units "disabled");
  password_login_enabled = to_boolean (option "PasswordLoginEnabled") true;
  password_register_enabled = to_boolean (option "PasswordRegisterEnabled") true;
  email_verification_enabled = to_boolean (option "EmailVerificationEnabled") false;
  github_oauth_enabled = to_boolean (option "GitHubOAuthEnabled") false;
  wechat_auth_enabled = to_boolean (option "WeChatAuthEnabled") false;
  turnstile_check_enabled = to_boolean (option "TurnstileCheckEnabled") false;
  register_enabled = to_boolean (option "RegisterEnabled") false;
  smtp_server = or_else (option "SMTPServer") [];
  smtp_port = or_else (option "SMTPPort") (units "587");
  smtp_account = or_else (option "SMTPAccount") [];
  smtp_token = [];
  github_client_id = or_else (option "GitHubClientId") [];
  github_client_secret = [];
  wechat_server_address = or_else (option "WeChatServerAddress") [];
  wechat_server_token = [];
  wechat_qrcode_image_url = or_else (option "WeChatAccountQRCodeImageURL") [];
  turnstile_site_key = or_else (option "TurnstileSiteKey") [];
  turnstile_secret_key = [];
}

unfoldable pub load_operation : (String → Option Text) → (server_address : Text) → OperationFields
load_operation option address = record {
  global_api_num = or_else (option "GlobalApiRateLimitNum") (units "300");
  global_api_duration = or_else (option "GlobalApiRateLimitDuration") (units "180");
  global_web_num = or_else (option "GlobalWebRateLimitNum") (units "300");
  global_web_duration = or_else (option "GlobalWebRateLimitDuration") (units "180");
  upload_num = or_else (option "UploadRateLimitNum") (units "50");
  upload_duration = or_else (option "UploadRateLimitDuration") (units "60");
  download_num = or_else (option "DownloadRateLimitNum") (units "50");
  download_duration = or_else (option "DownloadRateLimitDuration") (units "60");
  critical_num = or_else (option "CriticalRateLimitNum") (units "100");
  critical_duration = or_else (option "CriticalRateLimitDuration") (units "1200");
  server_address = address;
}

unfoldable pub load_other : (String → Option Text) → OtherFields
load_other option = record {
  notice = or_else (option "Notice") [];
  system_name = or_else (option "SystemName") [];
  home_page_link = or_else (option "HomePageLink") [];
  about = or_else (option "About") [];
  footer = or_else (option "Footer") [];
}

-- The effect on the public status, for each of the three forms.
unfoldable pub status_to_system : PublicStatus → (resolved : Text) → SystemFields → SystemFields
status_to_system status resolved previous = record previous {
  server_address = or_text resolved previous.server_address;
  github_client_id = or_text status.github_client_id previous.github_client_id;
  wechat_qrcode_image_url = or_text status.wechat_qrcode previous.wechat_qrcode_image_url;
  turnstile_site_key = or_text status.turnstile_site_key previous.turnstile_site_key;
}

unfoldable pub status_to_other : PublicStatus → OtherFields → OtherFields
status_to_other status previous = record previous {
  system_name = or_text status.system_name previous.system_name;
  home_page_link = or_text status.home_page_link previous.home_page_link;
  footer = or_text status.footer_html previous.footer;
}

unfoldable pub status_to_operation : (resolved : Text) → OperationFields → OperationFields
status_to_operation resolved previous = record previous {
  server_address = or_text resolved previous.server_address;
}
