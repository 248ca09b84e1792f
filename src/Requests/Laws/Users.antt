-- ===== src/Requests/Laws/Users.antt =====
-- The requests about users and the session carry the parameters of their calls.
use poolx.Common.{◌++◌, Option, none, some, refl}
use poolx.Common.Text.{Text, units}
use poolx.Url.Laws.{AreWellFormed}
use poolx.Url.Reading.{read_text, unescape, read_utf8, text_of}
use poolx.Url.{encode_uri_component}
use poolx.Requests.Users.{given_token, turnstile_param}
use poolx.Requests.{Json, get, post_json}
use poolx.Requests.Calls.{
  UserCall, create_user, exchange_github_code, get_current_user, get_public_status, get_user,
  get_users, login, logout, manage_user, register, reset_password, search_users,
  send_email_verification, send_password_reset_email, update_user, user_request,
}
use poolx.Requests.Parameters.{user_parameters}
use poolx.Requests.Laws.Shapes.{
  Served, as_get, as_post, plain_get, plain_json, id_get, query_get, component-Served,
  number-Served,
}

module _ {File : Type 0} where
  register-Served :
      (payload : Json) (token : Option Text)
      → AreWellFormed (turnstile_param token)
      → Served {File = File}
          (elim token [
            | none ↦ some (post_json (units "/user/register") payload)
            | some t ↦ elim (encode_uri_component t) [
              | none ↦ none
              | some e ↦ some (post_json (units "/user/register?turnstile=" ++ e) payload)
            ]
          ])
          (turnstile_param token)
  unfolding read_text text_of read_utf8 unescape
  register-Served payload none w = plain_json "/user/register" payload refl
  register-Served payload (some t) w =
      component-Served (units "/user/register") (units "turnstile")
        (λ e. post_json (units "/user/register?turnstile=" ++ e) payload) (λ e. refl)
        (λ e. as_post refl) refl refl refl refl t w.0.1

  pub user_request-Served :
      (c : UserCall File)
      → AreWellFormed (user_parameters c)
      → Served (user_request c) (user_parameters c)
  unfolding user_request read_text text_of read_utf8 unescape
  user_request-Served (get_users a) w =
      number-Served (units "/user/") (units "p") (λ e. get (units "/user/?p=" ++ e)) (λ e. refl)
        (λ e. as_get refl refl) refl refl refl refl a
  user_request-Served (search_users a) w =
      component-Served (units "/user/search") (units "keyword")
        (λ e. get (units "/user/search?keyword=" ++ e)) (λ e. refl) (λ e. as_get refl refl) refl
        refl refl refl a w.0.1
  user_request-Served (get_user a) w = id_get "/user/" a "" refl refl
  user_request-Served (create_user a) w = plain_json "/user/" _ refl
  user_request-Served (update_user a) w = plain_json "/user/update" _ refl
  user_request-Served (manage_user a b) w = plain_json "/user/manage" _ refl
  user_request-Served get_current_user w = plain_get "/user/self" refl
  user_request-Served (login a) w = plain_json "/user/login" _ refl
  user_request-Served logout w = plain_get "/user/logout" refl
  user_request-Served (register a b) w = register-Served a (given_token b) w
  user_request-Served (send_email_verification a b) w = query_get "/verification" _ refl w
  user_request-Served (send_password_reset_email a b) w = query_get "/reset_password" _ refl w
  user_request-Served (reset_password a) w = plain_json "/user/reset" _ refl
  user_request-Served (exchange_github_code a) w =
      component-Served (units "/oauth/github") (units "code")
        (λ e. get (units "/oauth/github?code=" ++ e)) (λ e. refl) (λ e. as_get refl refl) refl refl
        refl refl a w.0.1
  user_request-Served get_public_status w = plain_get "/status" refl
