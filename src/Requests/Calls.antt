-- ===== src/Requests/Calls.antt =====
-- The calls of the functions of features/*/api that go through `apiRequest`, by their subjects, each
-- with its request.
use poolx.Common.{ℕ, Bool, List, Option, some}
use poolx.Common.Text.{Text}
use poolx.Update.{ReleaseChannel}
use poolx.Users.{ManageUserAction}
use poolx.Nodes.Request.{ListParams, EnabledFilter}
use poolx.Logs.Page.{GetLogsParams}
use poolx.Requests.{Json, Request}
use poolx.Requests.Settings
use poolx.Requests.Users
use poolx.Requests.Nodes
use poolx.Requests.Kernel

pub data SettingsCall (File : Type 0) : Type 0 where
  get_options : SettingsCall File
  update_option : Text → Text → SettingsCall File
  inspect_mihomo_binary : Text → SettingsCall File
  download_mihomo_binary : Text → SettingsCall File
  preview_geo_ip : Text → Text → SettingsCall File
  get_settings_profile : SettingsCall File
  update_self : Json → SettingsCall File
  generate_access_token : SettingsCall File
  bind_we_chat : Text → SettingsCall File
  bind_email : Text → Text → SettingsCall File
  get_about_content : SettingsCall File

pub data UserCall (File : Type 0) : Type 0 where
  get_users : ℕ → UserCall File
  search_users : Text → UserCall File
  get_user : ℕ → UserCall File
  create_user : Json → UserCall File
  update_user : Json → UserCall File
  manage_user : Text → ManageUserAction → UserCall File
  get_current_user : UserCall File
  login : Json → UserCall File
  logout : UserCall File
  register : Json → Option Text → UserCall File
  send_email_verification : Text → Option Text → UserCall File
  send_password_reset_email : Text → Option Text → UserCall File
  reset_password : Json → UserCall File
  exchange_github_code : Text → UserCall File
  get_public_status : UserCall File

pub data NodeCall (File : Type 0) : Type 0 where
  get_proxy_nodes : ListParams → NodeCall File
  update_proxy_node_status : ℕ → Bool → NodeCall File
  delete_proxy_node : ℕ → NodeCall File
  delete_proxy_nodes : List ℕ → NodeCall File
  update_proxy_node_tags : List ℕ → Text → NodeCall File
  test_proxy_nodes : List ℕ → NodeCall File
  test_all_proxy_nodes : Option Text → Option EnabledFilter → NodeCall File
  get_port_profiles : NodeCall File
  get_port_profile : ℕ → NodeCall File
  create_port_profile : Json → NodeCall File
  update_port_profile : ℕ → Json → NodeCall File
  delete_port_profile : ℕ → NodeCall File
  preview_port_profile : Json → NodeCall File
  preview_saved_port_profile : ℕ → NodeCall File
  save_runtime_config : ℕ → NodeCall File
  get_proxy_node_options : Text → NodeCall File
  get_port_profile_templates : NodeCall File
  save_port_profile_template : Text → Json → NodeCall File
  delete_port_profile_template : ℕ → NodeCall File
  parse_source_config : File → NodeCall File
  parse_source_config_by_url : Text → NodeCall File
  import_source_config : ℕ → List Text → NodeCall File
  test_parsed_nodes : ℕ → List Text → NodeCall File

pub data KernelCall (File : Type 0) : Type 0 where
  get_runtime_status : KernelCall File
  start_runtime : KernelCall File
  stop_runtime : KernelCall File
  reload_runtime : KernelCall File
  get_runtime_logs : ℕ → ℕ → KernelCall File
  get_logs : GetLogsParams → KernelCall File
  push_log : Text → Text → Text → KernelCall File
  get_kernel_capability : KernelCall File
  get_latest_release : ReleaseChannel → KernelCall File
  upgrade_server : ReleaseChannel → KernelCall File
  confirm_manual_server_upgrade : Text → KernelCall File

pub data Call (File : Type 0) : Type 0 where
  settings : SettingsCall File → Call File
  users : UserCall File → Call File
  nodes : NodeCall File → Call File
  kernel : KernelCall File → Call File

unfoldable pub settings_request : {File : Type 0} → SettingsCall File → Option (Request File)
unfolding Settings.get_options Settings.update_option Settings.inspect_mihomo_binary
    Settings.download_mihomo_binary Settings.preview_geo_ip Settings.get_settings_profile
    Settings.update_self Settings.generate_access_token Settings.bind_we_chat Settings.bind_email
    Settings.get_about_content
settings_request get_options = some Settings.get_options
settings_request (update_option a b) = some (Settings.update_option a b)
settings_request (inspect_mihomo_binary a) = some (Settings.inspect_mihomo_binary a)
settings_request (download_mihomo_binary a) = some (Settings.download_mihomo_binary a)
settings_request (preview_geo_ip a b) = some (Settings.preview_geo_ip a b)
settings_request get_settings_profile = some Settings.get_settings_profile
settings_request (update_self a) = some (Settings.update_self a)
settings_request generate_access_token = some Settings.generate_access_token
settings_request (bind_we_chat a) = Settings.bind_we_chat a
settings_request (bind_email a b) = some (Settings.bind_email a b)
settings_request get_about_content = some Settings.get_about_content

unfoldable pub user_request : {File : Type 0} → UserCall File → Option (Request File)
unfolding Users.get_users Users.search_users Users.get_user Users.create_user Users.update_user
    Users.manage_user Users.get_current_user Users.login Users.logout Users.register
    Users.send_email_verification Users.send_password_reset_email Users.reset_password
    Users.exchange_github_code Users.get_public_status
user_request (get_users a) = some (Users.get_users a)
user_request (search_users a) = Users.search_users a
user_request (get_user a) = some (Users.get_user a)
user_request (create_user a) = some (Users.create_user a)
user_request (update_user a) = some (Users.update_user a)
user_request (manage_user a b) = some (Users.manage_user a b)
user_request get_current_user = some Users.get_current_user
user_request (login a) = some (Users.login a)
user_request logout = some Users.logout
user_request (register a b) = Users.register a b
user_request (send_email_verification a b) = some (Users.send_email_verification a b)
user_request (send_password_reset_email a b) = some (Users.send_password_reset_email a b)
user_request (reset_password a) = some (Users.reset_password a)
user_request (exchange_github_code a) = Users.exchange_github_code a
user_request get_public_status = some Users.get_public_status

unfoldable pub node_request : {File : Type 0} → NodeCall File → Option (Request File)
unfolding Nodes.get_proxy_nodes Nodes.update_proxy_node_status Nodes.delete_proxy_node
    Nodes.delete_proxy_nodes Nodes.update_proxy_node_tags Nodes.test_proxy_nodes
    Nodes.test_all_proxy_nodes Nodes.get_port_profiles Nodes.get_port_profile
    Nodes.create_port_profile Nodes.update_port_profile Nodes.delete_port_profile
    Nodes.preview_port_profile Nodes.preview_saved_port_profile Nodes.save_runtime_config
    Nodes.get_proxy_node_options Nodes.get_port_profile_templates Nodes.save_port_profile_template
    Nodes.delete_port_profile_template Nodes.parse_source_config Nodes.parse_source_config_by_url
    Nodes.import_source_config Nodes.test_parsed_nodes
node_request (get_proxy_nodes a) = some (Nodes.get_proxy_nodes a)
node_request (update_proxy_node_status a b) = some (Nodes.update_proxy_node_status a b)
node_request (delete_proxy_node a) = some (Nodes.delete_proxy_node a)
node_request (delete_proxy_nodes a) = some (Nodes.delete_proxy_nodes a)
node_request (update_proxy_node_tags a b) = some (Nodes.update_proxy_node_tags a b)
node_request (test_proxy_nodes a) = some (Nodes.test_proxy_nodes a)
node_request (test_all_proxy_nodes a b) = some (Nodes.test_all_proxy_nodes a b)
node_request get_port_profiles = some Nodes.get_port_profiles
node_request (get_port_profile a) = some (Nodes.get_port_profile a)
node_request (create_port_profile a) = some (Nodes.create_port_profile a)
node_request (update_port_profile a b) = some (Nodes.update_port_profile a b)
node_request (delete_port_profile a) = some (Nodes.delete_port_profile a)
node_request (preview_port_profile a) = some (Nodes.preview_port_profile a)
node_request (preview_saved_port_profile a) = some (Nodes.preview_saved_port_profile a)
node_request (save_runtime_config a) = some (Nodes.save_runtime_config a)
node_request (get_proxy_node_options a) = some (Nodes.get_proxy_node_options a)
node_request get_port_profile_templates = some Nodes.get_port_profile_templates
node_request (save_port_profile_template a b) = some (Nodes.save_port_profile_template a b)
node_request (delete_port_profile_template a) = some (Nodes.delete_port_profile_template a)
node_request (parse_source_config a) = some (Nodes.parse_source_config a)
node_request (parse_source_config_by_url a) = some (Nodes.parse_source_config_by_url a)
node_request (import_source_config a b) = some (Nodes.import_source_config a b)
node_request (test_parsed_nodes a b) = some (Nodes.test_parsed_nodes a b)

unfoldable pub kernel_request : {File : Type 0} → KernelCall File → Option (Request File)
unfolding Kernel.get_runtime_status Kernel.start_runtime Kernel.stop_runtime Kernel.reload_runtime
    Kernel.get_runtime_logs Kernel.get_logs Kernel.push_log Kernel.get_kernel_capability
    Kernel.get_latest_release Kernel.upgrade_server Kernel.confirm_manual_server_upgrade
kernel_request get_runtime_status = some Kernel.get_runtime_status
kernel_request start_runtime = some Kernel.start_runtime
kernel_request stop_runtime = some Kernel.stop_runtime
kernel_request reload_runtime = some Kernel.reload_runtime
kernel_request (get_runtime_logs a b) = some (Kernel.get_runtime_logs a b)
kernel_request (get_logs a) = some (Kernel.get_logs a)
kernel_request (push_log a b c) = some (Kernel.push_log a b c)
kernel_request get_kernel_capability = some Kernel.get_kernel_capability
kernel_request (get_latest_release a) = some (Kernel.get_latest_release a)
kernel_request (upgrade_server a) = some (Kernel.upgrade_server a)
kernel_request (confirm_manual_server_upgrade a) = some (Kernel.confirm_manual_server_upgrade a)

-- The arguments that `apiRequest` is called with, and none where the function throws before.
unfoldable pub request_of : {File : Type 0} → Call File → Option (Request File)
request_of (settings c) = settings_request c
request_of (users c) = user_request c
request_of (nodes c) = node_request c
request_of (kernel c) = kernel_request c
