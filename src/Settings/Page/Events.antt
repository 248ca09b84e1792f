-- ===== src/Settings/Page/Events.antt =====
-- The events of components/settings-page.tsx and the step of the page: a click or an input on a
-- control that is not on the screen, or is disabled, leaves the page as it is.
use poolx.Common.{ℕ, Bool, true, false, ◌&&◌, List, [], if◌then◌else◌, any}
use poolx.Common.Text.{Text}
use poolx.Ui.{Thrown}
use poolx.Auth.{AuthUser}
use poolx.Settings.{OptionItem, PublicStatus}
use poolx.Settings.Inputs.{
  GeneralInput, IntegrationInput, KernelInput, LatencyInput, LimitInput, OtherInput, RuntimeInput,
  SmtpInput, set_general, set_integration, set_kernel, set_latency, set_limit, set_other,
  set_runtime, set_smtp,
}
use poolx.Settings.Fields.{SystemFields}
use poolx.Settings.Actions.{
  operation, Effect, SettingsTab, State, clash, fail, other, personal, succeed, system,
}
use poolx.Settings.Page.{Screen, View, screen, shown, tabs}
use poolx.Settings.Page.Step.{
  ClashButton, Mutation, OtherButton, PersonalButton, PersonalInput, SystemButton, clash_enabled,
  options_loaded, other_enabled, personal_enabled, press_clash, press_other, press_personal,
  press_system, profile_loaded, set_personal, settle, status_loaded, system_enabled,
}

-- What is done on a card.
pub data Control : Type 0 where
  personal_button : PersonalButton → Control
  clash_button : ClashButton → Control
  system_button : SystemButton → Control
  other_button : OtherButton → Control
  personal_input : PersonalInput → Control
  kernel_input : KernelInput → Control
  runtime_input : RuntimeInput → Control
  latency_input : LatencyInput → Control
  smtp_input : SmtpInput → Control
  integration_input : IntegrationInput → Control
  general_input : GeneralInput → Control
  geoip_ip_input : Text → Control
  limit_input : LimitInput → Control
  other_input : OtherInput → Control

pub data Event : Type 0 where
  tab_clicked : SettingsTab → Event
  used : Control → Event
  succeeded : ℕ → Event
  failed : ℕ → Thrown → Event
  settled : Mutation → Event
  profile_changed : AuthUser → Event
  status_changed : PublicStatus → Event
  options_changed : List OptionItem → Event

-- The tab of a control.
unfoldable pub tab_of : Control → SettingsTab
tab_of (personal_button b) = personal
tab_of (personal_input i) = personal
tab_of (clash_button b) = clash
tab_of (kernel_input i) = clash
tab_of (runtime_input i) = clash
tab_of (latency_input i) = clash
tab_of (other_button b) = other
tab_of (other_input i) = other
tab_of _ = system

unfoldable pub is_enabled : View → State → Control → Bool
is_enabled v s (personal_button b) = personal_enabled v s b
is_enabled v s (clash_button b) = clash_enabled v s b
is_enabled v s (system_button b) = system_enabled v s b
is_enabled v s (other_button b) = other_enabled s b
is_enabled v s _ = true

abbrev in_system : (SystemFields → SystemFields) → State → State × List Effect
in_system f s = (record s { system_fields = f s.system_fields }, [])

unfoldable pub use_control : View → Control → State → State × List Effect
use_control v (personal_button b) s = press_personal v b s
use_control v (clash_button b) s = press_clash v b s
use_control v (system_button b) s = press_system b s
use_control v (other_button b) s = press_other b s
use_control v (personal_input i) s = (set_personal i s, [])
use_control v (kernel_input i) s = in_system (set_kernel i) s
use_control v (runtime_input i) s = in_system (set_runtime i) s
use_control v (latency_input i) s = in_system (set_latency i) s
use_control v (smtp_input i) s = in_system (set_smtp i) s
use_control v (integration_input i) s = in_system (set_integration i) s
use_control v (general_input i) s = in_system (set_general i) s
use_control v (geoip_ip_input ip) s = (record s { geoip_test_ip = ip }, [])
use_control v (limit_input i) s =
    (record s { operation_fields = set_limit i s.operation_fields }, [])
use_control v (other_input i) s = (record s { other_fields = set_other i s.other_fields }, [])

abbrev pub tab_eq : SettingsTab → SettingsTab → Bool
tab_eq personal personal = true
tab_eq operation operation = true
tab_eq clash clash = true
tab_eq system system = true
tab_eq other other = true
tab_eq _ _ = false

abbrev pub is_shown : SettingsTab → Screen → Bool
is_shown tab (shown t) = tab_eq tab t
is_shown tab _ = false

unfoldable pub step : View → Event → State → State × List Effect
step v (tab_clicked tab) s =
    if any (tab_eq tab) (tabs v.is_root) then (record s { active_tab = tab }, []) else (s, [])
step v (used control) s =
    if is_shown (tab_of control) (screen v s.active_tab) && is_enabled v s control
    then use_control v control s
    else (s, [])
step v (succeeded i) s = succeed i s
step v (failed i error) s = fail i error s
step v (settled mutation) s = settle mutation s
step v (profile_changed profile) s = (profile_loaded profile s, [])
step v (status_changed status) s = (status_loaded v.origin status s, [])
step v (options_changed items) s = (options_loaded v items s, [])
