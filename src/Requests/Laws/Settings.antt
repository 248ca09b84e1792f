-- ===== src/Requests/Laws/Settings.antt =====
-- The requests about settings carry the parameters of their calls.
use poolx.Common.{◌++◌, refl}
use poolx.Common.Text.{units}
use poolx.Url.Laws.{AreWellFormed}
use poolx.Url.Reading.{read_text, unescape, read_utf8, text_of}
use poolx.Requests.{get}
use poolx.Requests.Calls.{
  SettingsCall, bind_email, bind_we_chat, download_mihomo_binary, generate_access_token,
  get_about_content, get_options, get_settings_profile, inspect_mihomo_binary, preview_geo_ip,
  settings_request, update_option, update_self,
}
use poolx.Requests.Parameters.{settings_parameters}
use poolx.Requests.Laws.Shapes.{Served, as_get, plain_get, plain_json, query_get, component-Served}

module _ {File : Type 0} where
  pub settings_request-Served :
      (c : SettingsCall File)
      → AreWellFormed (settings_parameters c)
      → Served (settings_request c) (settings_parameters c)
  unfolding settings_request read_text text_of read_utf8 unescape
  settings_request-Served get_options w = plain_get "/option/" refl
  settings_request-Served (update_option a b) w = plain_json "/option/update" _ refl
  settings_request-Served (inspect_mihomo_binary a) w = plain_json "/kernel/mihomo/inspect" _ refl
  settings_request-Served (download_mihomo_binary a) w = plain_json "/kernel/mihomo/download" _ refl
  settings_request-Served (preview_geo_ip a b) w = plain_json "/option/geoip/preview" _ refl
  settings_request-Served get_settings_profile w = plain_get "/user/self" refl
  settings_request-Served (update_self a) w = plain_json "/user/self/update" _ refl
  settings_request-Served generate_access_token w = plain_get "/user/token" refl
  settings_request-Served (bind_we_chat a) w =
      component-Served (units "/oauth/wechat/bind") (units "code")
        (λ e. get (units "/oauth/wechat/bind?code=" ++ e)) (λ e. refl) (λ e. as_get refl refl) refl
        refl refl refl a w.0.1
  settings_request-Served (bind_email a b) w = query_get "/oauth/email/bind" _ refl w
  settings_request-Served get_about_content w = plain_get "/about" refl
