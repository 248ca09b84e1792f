-- ===== src/Requests/Parameters.antt =====
-- The parameters that the query of a call is meant to carry, apart from how they are written.
use poolx.Common.{List, [], ◌∷◌, if◌then◌else◌, is_empty, ltb}
use poolx.Common.Number.{print}
use poolx.Common.Text.{Text, units, trim}
use poolx.Nodes.Request.{list_query}
use poolx.Logs.Page.{log_query}
use poolx.Requests.Users.{given_token, turnstile_param}
use poolx.Requests.Nodes.{as_texts}
use poolx.Requests.Kernel.{channel_text, log_texts}
use poolx.Requests.Calls.{
  SettingsCall, UserCall, NodeCall, KernelCall, Call, settings, users, nodes, kernel, bind_we_chat,
  bind_email, get_users, search_users, register, send_email_verification, send_password_reset_email,
  exchange_github_code, get_proxy_nodes, get_proxy_node_options, get_runtime_logs, get_logs,
  get_latest_release,
}

module _ {File : Type 0} where
  abbrev pub settings_parameters : SettingsCall File → List (Text × Text)
  settings_parameters (bind_we_chat code) = (units "code", code) ∷ []
  settings_parameters (bind_email email code) = (units "email", email) ∷ (units "code", code) ∷ []
  settings_parameters _ = []

  abbrev pub user_parameters : UserCall File → List (Text × Text)
  user_parameters (get_users page) = (units "p", print page) ∷ []
  user_parameters (search_users keyword) = (units "keyword", keyword) ∷ []
  user_parameters (register payload token) = turnstile_param (given_token token)
  user_parameters (send_email_verification email token) =
      (units "email", email) ∷ turnstile_param (given_token token)
  user_parameters (send_password_reset_email email token) =
      (units "email", email) ∷ turnstile_param (given_token token)
  user_parameters (exchange_github_code code) = (units "code", code) ∷ []
  user_parameters _ = []

  abbrev pub node_parameters : NodeCall File → List (Text × Text)
  node_parameters (get_proxy_nodes params) = as_texts (list_query params)
  node_parameters (get_proxy_node_options keyword) =
      if is_empty (trim keyword) then [] else (units "keyword", trim keyword) ∷ []
  node_parameters _ = []

  abbrev pub kernel_parameters : KernelCall File → List (Text × Text)
  kernel_parameters (get_runtime_logs after_seq limit) =
      let params = (units "limit", print limit) ∷ [] in
      if ltb 0 after_seq then (units "after_seq", print after_seq) ∷ params else params
  kernel_parameters (get_logs params) = log_texts (log_query params)
  kernel_parameters (get_latest_release channel) = (units "channel", channel_text channel) ∷ []
  kernel_parameters _ = []

  unfoldable pub parameters_of : Call File → List (Text × Text)
  parameters_of (settings c) = settings_parameters c
  parameters_of (users c) = user_parameters c
  parameters_of (nodes c) = node_parameters c
  parameters_of (kernel c) = kernel_parameters c
