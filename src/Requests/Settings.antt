-- ===== src/Requests/Settings.antt =====
-- server/web/features/settings/api/settings.ts, and the upload of
-- server/web/features/update/api/update.ts.
use poolx.Common.{
  ℕ, Bool, true, not, ◌||◌, [], ◌∷◌, ◌++◌, Option, none, some, String, if◌then◌else◌, ltb, leb,
}
use poolx.Common.Text.{Text, units}
use poolx.Api.{Body, Outcome, resolved, rejected, payload_of, message_or, failed_with}
use poolx.Url.{encode_uri_component}
use poolx.Requests.{
  Json, text, object, end, field, file_value, text_value, RequestBody, form_body, Request, get,
  post_json, post_form, with_query,
}

-- A request by `XMLHttpRequest`: what `open`, `withCredentials` and `send` are given.
pub record XhrRequest (File : Type 0) : Type 0 where
  pub method : String
  pub path : Text
  pub with_credentials : Bool
  pub body : RequestBody File

-- An upload goes through `apiRequest`, or through an `XMLHttpRequest` where its progress is watched.
pub data Upload (File : Type 0) : Type 0 where
  by_fetch : Request File → Upload File
  by_xhr : XhrRequest File → Upload File

module _ {File : Type 0} where
  unfoldable pub get_options : Request File
  get_options = get (units "/option/")

  unfoldable pub update_option : Text → Text → Request File
  update_option key value =
      post_json (units "/option/update")
        (object (field "key" (text key) (field "value" (text value) end)))

  unfoldable pub upload_mihomo_binary : File → Text → (watched : Bool) → Upload File
  upload_mihomo_binary binary install_path watched =
      let form_data =
        ("binary", file_value binary) ∷ ("install_path", text_value install_path) ∷ [] in
      if not watched
      then by_fetch (post_form (units "/kernel/mihomo/upload") form_data)
      else by_xhr (record {
        method = "POST";
        path = units "/kernel/mihomo/upload";
        with_credentials = true;
        body = form_body form_data;
      })

  unfoldable pub upload_server_binary : File → (watched : Bool) → Upload File
  upload_server_binary binary watched =
      let form_data = ("binary", file_value binary) ∷ [] in
      if not watched
      then by_fetch (post_form (units "/update/manual-upload") form_data)
      else by_xhr (record {
        method = "POST";
        path = units "/update/manual-upload";
        with_credentials = true;
        body = form_body form_data;
      })

  unfoldable pub inspect_mihomo_binary : Text → Request File
  inspect_mihomo_binary install_path =
      post_json (units "/kernel/mihomo/inspect")
        (object (field "install_path" (text install_path) end))

  unfoldable pub download_mihomo_binary : Text → Request File
  download_mihomo_binary install_path =
      post_json (units "/kernel/mihomo/download")
        (object (field "install_path" (text install_path) end))

  unfoldable pub preview_geo_ip : Text → Text → Request File
  preview_geo_ip provider ip =
      post_json (units "/option/geoip/preview")
        (object (field "provider" (text provider) (field "ip" (text ip) end)))

  unfoldable pub get_settings_profile : Request File
  get_settings_profile = get (units "/user/self")

  unfoldable pub update_self : Json → Request File
  update_self payload = post_json (units "/user/self/update") payload

  unfoldable pub generate_access_token : Request File
  generate_access_token = get (units "/user/token")

  -- None where `encodeURIComponent` throws.
  unfoldable pub bind_we_chat : Text → Option (Request File)
  bind_we_chat code = elim (encode_uri_component code) [
    | none ↦ none
    | some e ↦ some (get (units "/oauth/wechat/bind?code=" ++ e))
  ]

  unfoldable pub bind_email : Text → Text → Request File
  bind_email email code =
      get (with_query "/oauth/email/bind" ((units "email", email) ∷ (units "code", code) ∷ []))

  unfoldable pub get_about_content : Request File
  get_about_content = get (units "/about")

-- The `load` listener of `uploadMihomoBinary`.
unfoldable pub mihomo_loaded : (ℕ → String) → {T : Type 0} → ℕ → Body T → Outcome T
mihomo_loaded show status body =
    let payload = payload_of body in
    if ltb status 200 || leb 300 status
    then rejected
        (record { message = message_or payload (failed_with show status); status = status })
    else elim payload [
      | none ↦ rejected (record { message = "响应格式无效"; status = status })
      | some e ↦
          if not e.success
          then rejected (record { message = message_or (some e) "请求失败"; status = status })
          else resolved e.content
    ]
