-- ===== src/Auth/Forms/Reset.antt =====
-- features/auth/components/password-reset-flow.tsx, password-reset-request-form.tsx and
-- password-reset-confirm-form.tsx.
pub mod Laws
use poolx.Common.{
  ℕ, Bool, true, false, not, ◌&&◌, ◌||◌, List, [], ◌∷◌, ◌++◌, Option, none, some, String,
  if◌then◌else◌, is_empty, or_else, get_last?,
}
use poolx.Common.Text.{Text, units, split}
use poolx.Ui.{FeedbackState, Tone, success, danger, info, Thrown}
use poolx.Auth.{PasswordResetRequestPayload}
use poolx.Auth.Forms.{error_text, message, given}

-- The form that asks for the mail with the link.
pub record Request : Type 0 where
  pub turnstile_token : Text
  pub message : Option FeedbackState
  pub email : Text

abbrev pub empty_request : Request
empty_request = record { turnstile_token = []; message = none; email = [] }

pub data Effect : Type 0 where
  send_password_reset_email : Text → (token : Option Text) → Effect
  reset_password : PasswordResetRequestPayload → Effect
  copy : Text → Effect

-- `handleSubmit`, on the address that the form library passes on.
unfoldable pub submit : (turnstile_check : Bool) → Text → Request → Request × List Effect
submit turnstile_check email s =
    if turnstile_check && is_empty s.turnstile_token
    then (record s { message = message info "请先完成人机验证。" }, [])
    else (
      record s { message = none },
      send_password_reset_email email (given s.turnstile_token) ∷ [],
    )

unfoldable pub mail_sent : Request → Request
mail_sent s = record s { message = message success "重置邮件发送成功，请检查邮箱。"; email = [] }

unfoldable pub mail_failed : Thrown → Request → Request
mail_failed error s = record s { message = message danger (error_text "重置邮件发送失败，请稍后重试。" error) }

-- `hasConfirmationParams`; `missingParams` is its opposite.
unfoldable pub has_confirmation_params : (email token : Option Text) → Bool
has_confirmation_params email token =
    not (is_empty (or_else email [])) && not (is_empty (or_else token []))

-- A message that holds the new password.
pub record Message : Type 0 where
  pub tone : Tone
  pub text : Text

-- The button of the form behind the link.
unfoldable pub confirm : (email token : Option Text) → (pending : Bool) → List Effect
confirm email token pending =
    let missing = is_empty (or_else email []) || is_empty (or_else token []) in
    if missing || pending
    then []
    else reset_password (record { email = or_else email []; token = or_else token [] }) ∷ []

-- `onSuccess`, for the answer of the clipboard.
unfoldable pub confirmed : (copied : Bool) → Text → Message
confirmed true password = record { tone = success; text = units "密码已重置，新密码已复制到剪贴板：" ++ password }
confirmed false password = record { tone = success; text = units "密码已重置：" ++ password }

-- The unit of `：`.
abbrev pub colon : ℕ
colon = 65306

-- The button that copies the password again: `message.text.split('：').pop() || ''`.
unfoldable pub copy_again : Message → List Effect
copy_again m =
    let password = or_else (get_last? (split colon m.text)) [] in
    if is_empty password then [] else copy password ∷ []
