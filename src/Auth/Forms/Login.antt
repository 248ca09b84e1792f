-- ===== src/Auth/Forms/Login.antt =====
-- features/auth/components/login-form.tsx, and github-oauth-callback.tsx behind its second button.
pub mod Laws
use poolx.Common.{
  Bool, true, false, not, ◌&&◌, List, [], ◌∷◌, Option, none, some, String, if◌then◌else◌, is_empty,
}
use poolx.Common.Text.{Text, units}
use poolx.Ui.{FeedbackState, success, danger, Thrown}
use poolx.Auth.{AuthUser, LoginPayload}
use poolx.Auth.Guards.{target_of}
use poolx.Auth.Forms.{error_text, message}

pub record State : Type 0 where
  pub error_message : String
  pub show_password : Bool
  pub form : LoginPayload

abbrev pub initial : State
initial = record {
  error_message = "";
  show_password = false;
  form = record { username = []; password = [] };
}

-- `loginSchema`.
unfoldable pub login_schema : LoginPayload → Bool
login_schema values = not (is_empty values.username) && not (is_empty values.password)

pub data Effect : Type 0 where
  login_sent : LoginPayload → Effect
  code_sent : Text → Effect
  set_user : AuthUser → Effect
  replace : Text → Effect
  authorize : (client_id : Text) → Effect

pub data Event : Type 0 where
  entered : LoginPayload → Event
  submitted : (pending : Bool) → Event
  succeeded : AuthUser → Event
  failed : Thrown → Event
  password_shown : Event
  github_clicked : (client_id : Option Text) → Event

-- The page; `redirect` is `searchParams.get('redirect')`.
unfoldable pub step :
    (LoginPayload → Option LoginPayload) → Option Text → State → Event → State × List Effect
step resolver redirect s (entered values) = (record s { form = values }, [])
step resolver redirect s (submitted true) = (s, [])
step resolver redirect s (submitted false) = elim (resolver s.form) [
  | none ↦ (s, [])
  | some values ↦ (record s { error_message = "" }, login_sent values ∷ [])
]
step resolver redirect s (succeeded user) = (s, set_user user ∷ replace (target_of redirect) ∷ [])
step resolver redirect s (failed error) =
    (record s { error_message = error_text "登录失败，请稍后重试。" error }, [])
step resolver redirect s password_shown = (record s { show_password = not s.show_password }, [])
step resolver redirect s (github_clicked none) =
    (record s { error_message = "GitHub 登录当前不可用。" }, [])
step resolver redirect s (github_clicked (some id)) =
    if is_empty id
    then (record s { error_message = "GitHub 登录当前不可用。" }, [])
    else (s, authorize id ∷ [])

-- The page behind the redirect of GitHub: its prompt and its message.
pub record Callback : Type 0 where
  pub prompt : String
  pub message : Option FeedbackState

abbrev pub arrived : Callback
arrived = record { prompt = "正在处理 GitHub 授权结果..."; message = none }

-- The effect on `searchParams`, with `searchParams.get('code')`.
unfoldable pub handle_code : Option Text → Callback → Callback × List Effect
handle_code code s =
    let missing : Callback = record {
      prompt = "缺少授权 code";
      message = message danger "未收到 GitHub 授权参数，请返回登录页重试。";
    } in
    elim code [
      | none ↦ (missing, [])
      | some c ↦ if is_empty c then (missing, []) else (s, code_sent c ∷ [])
    ]

unfoldable pub exchanged : AuthUser → Callback → Callback × List Effect
exchanged user s = (
  record s { message = message success "登录成功，正在跳转..." },
  set_user user ∷ replace (units "/") ∷ [],
)

unfoldable pub exchange_failed : Thrown → Callback → Callback × List Effect
exchange_failed error s = (
  record { prompt = "授权处理失败"; message = message danger (error_text "GitHub 授权失败，请稍后重试。" error) },
  [],
)
