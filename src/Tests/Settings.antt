-- ===== src/Tests/Settings.antt =====
-- The settings page at concrete forms, actions and answers.
use poolx.Common.{true, false, [], ◌∷◌, ◌++◌, none, some, map, All, ◌≡◌, refl, arith}
use poolx.Common.Int.{parse_int, digits_from}
use poolx.Common.Number.{print, digits_with}
use poolx.Common.Text.{units, trim, trim_end, trim_start, is_space, starts_with}
use poolx.Settings.Options.{normalize_server_url, strip_slashes, get_entry, load_operation}
use poolx.Settings.Fields.{default_operation_fields}
use poolx.Settings.Entries.{
  Entries, check_entries, check_limits, first_limit_error, host_port_from, is_host_port,
  limit_entries, limit_error, passed, printed_entries, is_duration, print_parsed,
}
use poolx.Settings.Entries.Laws.{keys}
use poolx.Settings.Entries.Limits.{check_limits-AreLimits, limit_keys, AreLimits}
use poolx.Settings.Actions.Laws.{succeed_times, succeed_times-save, update_of, ended}
use poolx.Settings.Actions.{
  State, generate_access_token, initial, invalidate_options, invalidate_status, option_saved,
  profile_saved, said,
}
use poolx.Settings.Page.{View, screen, tab_screen}
use poolx.Settings.Page.Step.{reset_token, save_profile, personal_enabled, press_personal}
use poolx.Settings.Page.Events.{personal_button, step, used, tab_of, is_enabled, use_control}
use poolx.Settings.Page.Laws.{IsPersonal, step-IsPersonal}
use poolx.Settings.Actions.Tracking.{IsTracked}
use poolx.Settings.Page.Laws.Busy.{step-IsTracked}

server_address-slashes : normalize_server_url (units " http://a:3000// ") ≡ units "http://a:3000"
unfolding normalize_server_url strip_slashes trim trim_end trim_start is_space
server_address-slashes = refl

host_port-ports :
    (is_host_port (units "127.0.0.1:19090") ≡ true)
    × (is_host_port (units ":1") ≡ false)
    × (is_host_port (units "a:b:1") ≡ false)
unfolding is_host_port host_port_from
host_port-ports = (refl, refl, refl)

limits-passed :
    check_limits default_operation_fields ≡ passed (limit_entries default_operation_fields)
unfolding check_limits check_entries first_limit_error limit_error limit_entries printed_entries
    parse_int trim_start is_space digits_from is_duration starts_with print_parsed print digits_with
limits-passed = refl

check_limits-AreLimits_example :
    (keys (limit_entries default_operation_fields) ≡ limit_keys)
    × AreLimits default_operation_fields
        (load_operation (λ key. get_entry key (limit_entries default_operation_fields)) [])
check_limits-AreLimits_example =
    check_limits-AreLimits default_operation_fields (limit_entries default_operation_fields) []
      limits-passed

-- Two entries are left of a save, beside another action.
abbrev left : Entries
left = ("SMTPPort", units "587") ∷ ("SMTPAccount", units "a") ∷ []

abbrev saving : State
saving = record initial {
  busy_key = some "system-smtp";
  running =
      record { key = "profile"; wait = profile_saved }
      ∷ record { key = "system-smtp"; wait = option_saved left "SMTP 设置已保存。" }
      ∷ [];
}

succeed_times-save_example : succeed_times 5 1 saving ≡ (
  ended 1 (said "SMTP 设置已保存。" saving),
  map update_of left ++ invalidate_options ∷ invalidate_status ∷ [],
)
succeed_times-save_example = succeed_times-save 1 "system-smtp" "SMTP 设置已保存。" left saving refl

abbrev pub view : View
view = record {
  is_root = false;
  windows = false;
  origin = none;
  profile = record {
    is_loading = false;
    is_error = false;
    data_of = some (record {
      id = 1;
      username = units "alice";
      display_name = [];
      role = 1;
      status = 1;
      email = none;
      github_id = none;
      wechat_id = none;
    });
  };
  public_status = record {
    is_loading = false;
    is_error = false;
    data_of = some (record {
      version = [];
      start_time = 0;
      email_verification = false;
      github_oauth = false;
      github_client_id = [];
      system_name = [];
      home_page_link = [];
      footer_html = [];
      wechat_qrcode = [];
      wechat_login = false;
      server_address = [];
      turnstile_check = false;
      turnstile_site_key = [];
    });
  };
  options = record { is_loading = false; is_error = false; data_of = none };
  token_pending = false;
  geoip_pending = false;
  upload_pending = false;
  download_pending = false;
  inspect_pending = false;
}

-- The access token is the user's own; a switch is root's.
token-sent : (step view (used (personal_button reset_token)) initial).1 ≡ generate_access_token ∷ []
unfolding step screen tab_screen tab_of is_enabled personal_enabled use_control press_personal
token-sent = refl

step-IsPersonal_example : All IsPersonal (step view (used (personal_button reset_token)) initial).1
step-IsPersonal_example = step-IsPersonal view (personal_button reset_token) initial refl

step-IsTracked_example : IsTracked (step view (used (personal_button save_profile)) initial).0
step-IsTracked_example =
    step-IsTracked view (used (personal_button save_profile)) initial
      (λ key h. absurd (ground (arith, h)))
