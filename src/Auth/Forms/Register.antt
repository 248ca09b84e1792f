-- ===== src/Auth/Forms/Register.antt =====
-- features/auth/components/register-form.tsx. `is_email` is zod's test of an e-mail address.
pub mod Laws
use poolx.Common.{
  ℕ, Bool, true, false, not, ◌&&◌, ◌||◌, List, [], ◌∷◌, Option, none, some, String, if◌then◌else◌,
  is_empty, length, leb, ◌==◌, list_eq, nat_eq,
}
use poolx.Common.Text.{Text}
use poolx.Ui.{FeedbackState, success, danger, info, Thrown}
use poolx.Auth.{RegisterPayload}
use poolx.Auth.Forms.{error_text, message, given}

pub record RegisterFormValues : Type 0 where
  pub username : Text
  pub password : Text
  pub password2 : Text
  pub email : Option Text
  pub verification_code : Option Text

abbrev pub default_values : RegisterFormValues
default_values = record {
  username = [];
  password = [];
  password2 = [];
  email = some [];
  verification_code = some [];
}

-- `baseSchema`, and the fields that are added to it where the address is verified.
unfoldable pub base_schema : RegisterFormValues → Bool
base_schema values =
    leb 1 (length values.username)
    && (leb (length values.username) 12
        && (leb 8 (length values.password)
            && (leb (length values.password) 20
                && (leb 8 (length values.password2) && values.password == values.password2))))

unfoldable pub verified : (Text → Bool) → RegisterFormValues → Bool
verified is_email values = elim values.email [
  | none ↦ false
  | some email ↦ elim values.verification_code [
    | none ↦ false
    | some code ↦ is_email email && not (is_empty code)
  ]
]

-- `schema`, for `needsEmailVerification`.
unfoldable pub schema : (Text → Bool) → (needs_email : Bool) → RegisterFormValues → Bool
schema is_email needs_email values =
    base_schema values && (not needs_email || verified is_email values)

pub record State : Type 0 where
  pub turnstile_token : Text
  pub message : Option FeedbackState
  pub form : RegisterFormValues

abbrev pub initial : State
initial = record { turnstile_token = []; message = none; form = default_values }

pub data Effect : Type 0 where
  register_user : RegisterPayload → (token : Option Text) → Effect
  send_email_verification : Text → (token : Option Text) → Effect
  set_email_error : String → Effect
  replace_login : Effect

pub data Event : Type 0 where
  entered : RegisterFormValues → Event
  token_set : Text → Event
  submitted : (pending : Bool) → Event
  code_clicked : (pending : Bool) → Event
  registered code_sent : Event
  register_failed code_failed : Thrown → Event

unfoldable pub to_payload : RegisterFormValues → RegisterPayload
to_payload values = record {
  username = values.username;
  password = values.password;
  email = values.email;
  verification_code = values.verification_code;
}

abbrev pub untested : State → State
untested s = record s { message = message info "请先完成人机验证。" }

-- `handleSubmit`, on the values that the form library passes on.
unfoldable pub submit : (needs_turnstile : Bool) → RegisterFormValues → State → State × List Effect
submit needs_turnstile values s =
    if needs_turnstile && is_empty s.turnstile_token then (untested s, []) else (
      record s { message = none },
      register_user (to_payload values) (given s.turnstile_token) ∷ [],
    )

abbrev sent : State → State
sent s = record s { message = message success "验证码发送成功，请检查邮箱。" }

-- `verificationMutation`: without an address it ends at once, and successfully.
unfoldable pub send_code : Option Text → State → State × List Effect
send_code none s = (sent s, set_email_error "请输入邮箱地址" ∷ [])
send_code (some email) s =
    if is_empty email
    then (sent s, set_email_error "请输入邮箱地址" ∷ [])
    else (s, send_email_verification email (given s.turnstile_token) ∷ [])

-- The button for the code.
unfoldable pub click_code : (needs_turnstile : Bool) → State → State × List Effect
click_code needs_turnstile s =
    if needs_turnstile && is_empty s.turnstile_token
    then (untested s, [])
    else send_code s.form.email (record s { message = none })

-- The page; the button for the code is on it where the address is verified.
unfoldable pub step :
    (RegisterFormValues → Option RegisterFormValues)
    → (needs_email needs_turnstile : Bool) → State
    → Event
    → State × List Effect
step resolver needs_email needs_turnstile s (entered values) = (record s { form = values }, [])
step resolver needs_email needs_turnstile s (token_set token) =
    (record s { turnstile_token = token }, [])
step resolver needs_email needs_turnstile s (submitted pending) =
    if pending
    then (s, [])
    else elim (resolver s.form) [ none ↦ (s, []) | some values ↦ submit needs_turnstile values s ]
step resolver needs_email needs_turnstile s (code_clicked pending) =
    if pending || not needs_email then (s, []) else click_code needs_turnstile s
step resolver needs_email needs_turnstile s registered = (s, replace_login ∷ [])
step resolver needs_email needs_turnstile s code_sent = (sent s, [])
step resolver needs_email needs_turnstile s (register_failed error) =
    (record s { message = message danger (error_text "注册失败，请稍后重试。" error) }, [])
step resolver needs_email needs_turnstile s (code_failed error) =
    (record s { message = message danger (error_text "验证码发送失败，请稍后重试。" error) }, [])
