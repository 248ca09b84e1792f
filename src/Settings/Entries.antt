-- ===== src/Settings/Entries.antt =====
-- What the buttons of components/settings-page.tsx save: the entries of each, in their order, and
-- the checks of the code before the first is sent.
pub mod Laws
pub mod Limits
pub mod RoundTrip
use Prim.Native.String.{◌++◌ as str_append}
use poolx.Common.{
  ℕ, zero, suc, ◌/◌, ◌%◌, ◌++◌, Bool, true, false, not, ◌&&◌, ◌||◌, List, [], ◌∷◌, Option, none,
  some, String, map, reverse, ltb, leb, if◌then◌else◌, is_empty, ◌==◌, list_eq, nat_eq,
}
use poolx.Common.Int.{ℤ, pos, negsuc, parse_int}
use poolx.Common.Number.{print}
use poolx.Common.Text.{Text, units, trim, starts_with}
use poolx.Settings.Fields.{SystemFields, OperationFields, OtherFields}
use poolx.Settings.Options.{boolean_text, normalize_server_url}

abbrev pub Entries : Type 0
Entries = List (String × Text)

-- What a check returns: the entries to save, or the message of the error that it throws.
pub data Checked : Type 0 where
  passed : Entries → Checked
  refused : String → Checked

abbrev pub is_digit : ℕ → Bool
is_digit c = leb b'0' c && leb c b'9'

abbrev pub all_digits : Text → Bool
all_digits [] = true
all_digits (c ∷ s) = is_digit c && all_digits s

-- `/^[^:]+:\d+$/.test(s)`; the flag says that a unit was read before the colon.
unfoldable pub host_port_from : Bool → Text → Bool
host_port_from started [] = false
host_port_from started (c ∷ s) =
    let later = host_port_from true s in
    if c == b':' then started && (not (is_empty s) && all_digits s) else later

unfoldable pub is_host_port : Text → Bool
is_host_port s = host_port_from false s

-- `['rule', 'global', 'direct'].includes(mode)`.
unfoldable pub is_mode : Text → Bool
is_mode mode = mode == units "rule" || mode == units "global" || mode == units "direct"

-- The checks of `handleClashSettingsSave` on the texts, after that on the timeout.
unfoldable pub clash_error : SystemFields → Option String
clash_error s =
    if is_empty (trim s.node_test_default_url)
    then some "默认测速 URL 不能为空。"
    else if is_empty (trim s.clash_external_controller)
    then some "external-controller 不能为空。"
    else if not (is_host_port (trim s.clash_external_controller))
    then some "external-controller 必须为 host:port 格式。"
    else if is_empty (trim s.clash_secret)
    then some "secret 不能为空。"
    else if not (is_mode (trim s.clash_mode))
    then some "mode 仅支持 rule、global 或 direct。"
    else none

-- The entries of `handleClashSettingsSave`.
unfoldable pub clash_entries : SystemFields → (timeout : ℕ) → Entries
clash_entries s timeout =
    ("KernelType", s.kernel_type)
    ∷ ("KernelAutoStart", boolean_text s.kernel_auto_start)
    ∷ ("ClashAllowLAN", boolean_text s.clash_allow_lan)
    ∷ ("ClashExternalController", trim s.clash_external_controller)
    ∷ ("ClashMode", trim s.clash_mode)
    ∷ ("ClashSecret", trim s.clash_secret)
    ∷ ("NodeTestDefaultURL", trim s.node_test_default_url)
    ∷ ("NodeTestDefaultTimeoutMS", print timeout)
    ∷ []

-- `handleClashSettingsSave` up to its first request, for a timeout that was read.
unfoldable pub check_timeout : SystemFields → Option ℤ → Checked
check_timeout s none = refused "默认测速超时必须为大于 0 的整数。"
check_timeout s (some (negsuc n)) = refused "默认测速超时必须为大于 0 的整数。"
check_timeout s (some (pos zero)) = refused "默认测速超时必须为大于 0 的整数。"
check_timeout s (some (pos (suc n))) =
    if ltb 60000 (suc n) then refused "默认测速超时不能超过 60000 毫秒。" else elim (clash_error s) [
      | some message ↦ refused message
      | none ↦ passed (clash_entries s (suc n))
    ]

unfoldable pub check_clash : SystemFields → Checked
check_clash s = check_timeout s (parse_int s.node_test_default_timeout_ms)

-- The entries of the rate limits, before they are printed again.
unfoldable pub limit_entries : OperationFields → Entries
limit_entries o =
    ("GlobalApiRateLimitNum", o.global_api_num)
    ∷ ("GlobalApiRateLimitDuration", o.global_api_duration)
    ∷ ("GlobalWebRateLimitNum", o.global_web_num)
    ∷ ("GlobalWebRateLimitDuration", o.global_web_duration)
    ∷ ("UploadRateLimitNum", o.upload_num)
    ∷ ("UploadRateLimitDuration", o.upload_duration)
    ∷ ("DownloadRateLimitNum", o.download_num)
    ∷ ("DownloadRateLimitDuration", o.download_duration)
    ∷ ("CriticalRateLimitNum", o.critical_num)
    ∷ ("CriticalRateLimitDuration", o.critical_duration)
    ∷ []

-- `key.endsWith('Duration')`.
unfoldable pub is_duration : String → Bool
is_duration key = starts_with (reverse (units key)) (reverse (units "Duration"))

-- One round of the loop over the rate limits.
unfoldable pub limit_error : String → Option ℤ → Option String
limit_error key (some (pos (suc n))) =
    if is_duration key && ltb 1200 (suc n) then some (str_append key " 不能超过 1200 秒。") else none
limit_error key _ = some (str_append key " 必须为大于 0 的整数。")

unfoldable pub first_limit_error : Entries → Option String
first_limit_error [] = none
first_limit_error ((key, value) ∷ entries) = elim (limit_error key (parse_int value)) [
  | some message ↦ some message
  | none ↦ first_limit_error entries
]

-- `String(Number.parseInt(value, 10))`, for a number below 2^53.
unfoldable pub print_parsed : Option ℤ → Text
print_parsed none = units "NaN"
print_parsed (some (pos n)) = print n
print_parsed (some (negsuc n)) = b'-' ∷ print (suc n)

unfoldable pub printed_entries : Entries → Entries
printed_entries entries = map (λ e. (e.0, print_parsed (parse_int e.1))) entries

unfoldable pub check_entries : Entries → Checked
check_entries entries = elim (first_limit_error entries) [
  | some message ↦ refused message
  | none ↦ passed (printed_entries entries)
]

unfoldable pub check_limits : OperationFields → Checked
check_limits o = check_entries (limit_entries o)

-- The entries of the other buttons.
unfoldable pub update_entries : SystemFields → Entries
update_entries s = ("ServerUpdateRepo", trim s.server_update_repo) ∷ []

unfoldable pub general_entries : SystemFields → Entries
general_entries s =
    ("ServerAddress", normalize_server_url s.server_address)
    ∷ ("GeoIPProvider", s.geoip_provider)
    ∷ []

unfoldable pub smtp_entries : SystemFields → Entries
smtp_entries s =
    ("SMTPServer", trim s.smtp_server)
    ∷ ("SMTPPort", trim s.smtp_port)
    ∷ ("SMTPAccount", trim s.smtp_account)
    ∷ ("SMTPToken", trim s.smtp_token)
    ∷ []

unfoldable pub integration_entries : SystemFields → Entries
integration_entries s =
    ("GitHubClientId", trim s.github_client_id)
    ∷ ("GitHubClientSecret", trim s.github_client_secret)
    ∷ ("WeChatServerAddress", normalize_server_url s.wechat_server_address)
    ∷ ("WeChatServerToken", trim s.wechat_server_token)
    ∷ ("WeChatAccountQRCodeImageURL", trim s.wechat_qrcode_image_url)
    ∷ ("TurnstileSiteKey", trim s.turnstile_site_key)
    ∷ ("TurnstileSecretKey", trim s.turnstile_secret_key)
    ∷ []

unfoldable pub brand_entries : OtherFields → Entries
brand_entries o =
    ("Notice", o.notice)
    ∷ ("SystemName", trim o.system_name)
    ∷ ("HomePageLink", trim o.home_page_link)
    ∷ ("Footer", o.footer)
    ∷ []

unfoldable pub about_entries : OtherFields → Entries
about_entries o = ("About", o.about) ∷ []

-- `formatSecondsLabel`.
unfoldable pub seconds_label : Text → Option ℤ → Text
seconds_label value none = value
seconds_label value (some (negsuc n)) = (b'-' ∷ print (suc n)) ++ units " 秒"
seconds_label value (some (pos n)) =
    if leb 3600 n && n % 3600 == 0
    then print (n / 3600) ++ units " 小时"
    else if leb 60 n && n % 60 == 0
    then print (n / 60) ++ units " 分钟"
    else print n ++ units " 秒"

unfoldable pub format_seconds_label : Text → Text
format_seconds_label value = seconds_label value (parse_int value)
