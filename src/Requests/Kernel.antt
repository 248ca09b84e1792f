-- ===== src/Requests/Kernel.antt =====
-- The requests about the kernel, the logs and the version: of server/web/features the modules
-- runtime/api/runtime.ts, logs/api/logs.ts, capability/api/capability.ts and update/api/update.ts.
use poolx.Common.{ℕ, List, [], ◌∷◌, ◌++◌, String, map, if◌then◌else◌, ltb}
use poolx.Common.Number.{print}
use poolx.Common.Text.{Text, units}
use poolx.Update.{ReleaseChannel, stable, preview}
use poolx.Logs.Page.{
  ClassificationFilter, all_logs, only_system, only_business, only_security, GetLogsParams,
  ParamValue, log_query,
}
use poolx.Logs.Page
use poolx.Requests.{text, object, end, field, Request, get, post, post_json, with_query}

unfoldable pub channel_text : ReleaseChannel → Text
channel_text stable = units "stable"
channel_text preview = units "preview"

unfoldable pub classification_text : ClassificationFilter → Text
classification_text all_logs = units "all"
classification_text only_system = units "system"
classification_text only_business = units "business"
classification_text only_security = units "security"

unfoldable pub param_text : ParamValue → Text
param_text (Page.number n) = print n
param_text (Page.one_of c) = classification_text c

abbrev pub log_texts : List (String × ParamValue) → List (Text × Text)
log_texts = map (λ (name, value). (units name, param_text value))

module _ {File : Type 0} where
  unfoldable pub get_runtime_status : Request File
  get_runtime_status = get (units "/runtime/status")

  unfoldable pub start_runtime : Request File
  start_runtime = post (units "/runtime/start")

  unfoldable pub stop_runtime : Request File
  stop_runtime = post (units "/runtime/stop")

  unfoldable pub reload_runtime : Request File
  reload_runtime = post (units "/runtime/reload")

  unfoldable pub get_runtime_logs : (after_seq limit : ℕ) → Request File
  get_runtime_logs after_seq limit =
      let params = (units "limit", print limit) ∷ [] in
      get (
        with_query "/runtime/logs"
          (if ltb 0 after_seq then (units "after_seq", print after_seq) ∷ params else params))

  unfoldable pub get_logs : GetLogsParams → Request File
  get_logs params = get (with_query "/log/" (log_texts (log_query params)))

  unfoldable pub push_log : (classification level message : Text) → Request File
  push_log classification level message = post_json (units "/log/") (
      object (
        field "classification" (text classification)
          (field "level" (text level) (field "message" (text message) end))))

  unfoldable pub get_kernel_capability : Request File
  get_kernel_capability = get (units "/capabilities")

  unfoldable pub get_latest_release : ReleaseChannel → Request File
  get_latest_release channel = get (units "/update/latest-release?channel=" ++ channel_text channel)

  unfoldable pub upgrade_server : ReleaseChannel → Request File
  upgrade_server channel =
      post_json (units "/update/upgrade")
        (object (field "channel" (text (channel_text channel)) end))

  unfoldable pub confirm_manual_server_upgrade : Text → Request File
  confirm_manual_server_upgrade upload_token =
      post_json (units "/update/manual-upgrade")
        (object (field "upload_token" (text upload_token) end))
