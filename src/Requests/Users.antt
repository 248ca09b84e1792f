-- ===== src/Requests/Users.antt =====
-- server/web/features/users/api/users.ts, server/web/features/auth/api/auth.ts and public.ts.
use poolx.Common.{ℕ, List, [], ◌∷◌, ◌++◌, Option, none, some, if◌then◌else◌, is_empty}
use poolx.Common.Number.{print}
use poolx.Common.Text.{Text, units}
use poolx.Url.{encode_uri_component}
use poolx.Users.{ManageUserAction, promote, demote, delete, disable, enable}
use poolx.Requests.{Json, text, object, end, field, Request, get, post_json, with_id, with_query}

unfoldable pub action_text : ManageUserAction → Text
action_text promote = units "promote"
action_text demote = units "demote"
action_text delete = units "delete"
action_text disable = units "disable"
action_text enable = units "enable"

-- The token of the human check, where it is given and not empty.
abbrev pub given_token : Option Text → Option Text
given_token none = none
given_token (some t) = if is_empty t then none else some t

abbrev pub turnstile_param : Option Text → List (Text × Text)
turnstile_param none = []
turnstile_param (some t) = (units "turnstile", t) ∷ []

module _ {File : Type 0} where
  unfoldable pub get_users : ℕ → Request File
  get_users page = get (units "/user/?p=" ++ print page)

  unfoldable pub search_users : Text → Option (Request File)
  search_users keyword = elim (encode_uri_component keyword) [
    | none ↦ none
    | some e ↦ some (get (units "/user/search?keyword=" ++ e))
  ]

  unfoldable pub get_user : ℕ → Request File
  get_user id = get (with_id "/user/" id "")

  unfoldable pub create_user : Json → Request File
  create_user payload = post_json (units "/user/") payload

  unfoldable pub update_user : Json → Request File
  update_user payload = post_json (units "/user/update") payload

  unfoldable pub manage_user : Text → ManageUserAction → Request File
  manage_user username action =
      post_json (units "/user/manage")
        (object (field "username" (text username) (field "action" (text (action_text action)) end)))

  unfoldable pub get_current_user : Request File
  get_current_user = get (units "/user/self")

  unfoldable pub login : Json → Request File
  login payload = post_json (units "/user/login") payload

  unfoldable pub logout : Request File
  logout = get (units "/user/logout")

  unfoldable pub register : Json → Option Text → Option (Request File)
  register payload turnstile_token = elim (given_token turnstile_token) [
    | none ↦ some (post_json (units "/user/register") payload)
    | some t ↦ elim (encode_uri_component t) [
      | none ↦ none
      | some e ↦ some (post_json (units "/user/register?turnstile=" ++ e) payload)
    ]
  ]

  unfoldable pub send_email_verification : Text → Option Text → Request File
  send_email_verification email turnstile_token = get (
      with_query "/verification"
        ((units "email", email) ∷ turnstile_param (given_token turnstile_token)))

  unfoldable pub send_password_reset_email : Text → Option Text → Request File
  send_password_reset_email email turnstile_token = get (
      with_query "/reset_password"
        ((units "email", email) ∷ turnstile_param (given_token turnstile_token)))

  unfoldable pub reset_password : Json → Request File
  reset_password payload = post_json (units "/user/reset") payload

  -- `exchangeGitHubCode`.
  unfoldable pub exchange_github_code : Text → Option (Request File)
  exchange_github_code code = elim (encode_uri_component code) [
    | none ↦ none
    | some e ↦ some (get (units "/oauth/github?code=" ++ e))
  ]

  unfoldable pub get_public_status : Request File
  get_public_status = get (units "/status")
