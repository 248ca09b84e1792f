-- ===== src/Auth/Forms.antt =====
-- What the forms of server/web/features/auth/components share. The form library checks the values of
-- a form: `resolver` is what `zodResolver` makes of a schema, the values that it passes on to the
-- handler of a submit, none where it reports errors.
pub mod Login
pub mod Register
pub mod Reset
use poolx.Common.{String, Option, none, some, if◌then◌else◌, str_eq, is_empty}
use poolx.Common.Text.{Text}
use poolx.Ui.{Tone, FeedbackState, Thrown, an_error, anything}

-- `error.message || text`.
abbrev pub error_text : String → Thrown → String
error_text text (an_error message) = if str_eq message "" then text else message
error_text text anything = text

abbrev pub message : Tone → String → Option FeedbackState
message tone text = some (record { tone = tone; message = text })

-- `turnstileToken || undefined`.
abbrev pub given : Text → Option Text
given token = if is_empty token then none else some token
