-- ===== src/Requests/Laws/Kernel.antt =====
-- The requests about the kernel, the logs and the version carry the parameters of their calls.
use poolx.Common.{refl}
use poolx.Common.Text.{split, split_from}
use poolx.Url.Laws.{AreWellFormed}
use poolx.Url.Reading.{read_text, unescape, read_utf8, text_of, read_url, read_query, cut}
use poolx.Requests.Kernel
use poolx.Update.{stable, preview}
use poolx.Requests.Calls.{
  KernelCall, confirm_manual_server_upgrade, get_kernel_capability, get_latest_release, get_logs,
  get_runtime_logs, get_runtime_status, kernel_request, push_log, reload_runtime, start_runtime,
  stop_runtime, upgrade_server,
}
use poolx.Requests.Parameters.{kernel_parameters}
use poolx.Requests.Laws.Shapes.{Served, as_get, plain_get, plain_post, plain_json, query_get}

module _ {File : Type 0} where
  pub kernel_request-Served :
      (c : KernelCall File)
      → AreWellFormed (kernel_parameters c)
      → Served (kernel_request c) (kernel_parameters c)
  unfolding kernel_request read_url read_query split split_from cut Kernel.channel_text read_text
      text_of read_utf8 unescape
  kernel_request-Served get_runtime_status w = plain_get "/runtime/status" refl
  kernel_request-Served start_runtime w = plain_post "/runtime/start" refl
  kernel_request-Served stop_runtime w = plain_post "/runtime/stop" refl
  kernel_request-Served reload_runtime w = plain_post "/runtime/reload" refl
  kernel_request-Served (get_runtime_logs a b) w = query_get "/runtime/logs" _ refl w
  kernel_request-Served (get_logs a) w = query_get "/log/" _ refl w
  kernel_request-Served (push_log a b c) w = plain_json "/log/" _ refl
  kernel_request-Served get_kernel_capability w = plain_get "/capabilities" refl
  kernel_request-Served (get_latest_release stable) w = (_, refl, refl, as_get refl refl)
  kernel_request-Served (get_latest_release preview) w = (_, refl, refl, as_get refl refl)
  kernel_request-Served (upgrade_server a) w = plain_json "/update/upgrade" _ refl
  kernel_request-Served (confirm_manual_server_upgrade a) w =
      plain_json "/update/manual-upgrade" _ refl
