-- ===== src/Api/Laws.antt =====
-- When a request succeeds, and that the upload agrees with it.
use Prim.Native.String.{◌++◌ as str_append}
use text.Mathlib.TextLemmas.{cons-append, cons-ne-nil}
use poolx.Common.{
  str_eq, any-append, [], ◌∷◌, sym, ◌∙◌, ℕ, Bool, true, false, not, ◌&&◌, List, Option, none, some,
  String, ltb, leb, str_eq_iff, ◌≡◌, ◌≢◌, ◌↔◌, refl, arith,
}
use poolx.Api.{
  ApiEnvelope, ApiError, Body, unreadable, falsy, envelope, resolved, rejected, Response,
  api_result, upload_loaded, RequestInit, built_headers, fetch_options, has_header, message_or,
  payload_of, failed_with,
}

-- A text that begins with a character is not empty.
cons_append-ne : (s : String) → str_append "请求失败（" s ≢ ""
cons_append-ne s e = cons-ne-nil _ _ (sym (cons-append _ _ s) ∙ e)

failed_with-ne : (show : ℕ → String) (status : ℕ) → failed_with show status ≢ ""
unfolding failed_with
failed_with-ne show status = cons_append-ne _

module _ (show : ℕ → String) {T : Type 0} where
  by_body :
      (ok : Bool) (status : ℕ) (body : Body T) (t : T)
      → (api_result show (record { ok = ok; status = status; body = body }) ≡ resolved t) ↔ (
          (ok ≡ true)
          × (e : ApiEnvelope T) × (body ≡ envelope e)
          × (e.success ≡ true)
          × (e.content ≡ t))
  unfolding api_result
  by_body ok status unreadable t = ground arith
  by_body ok status falsy t = ground arith
  by_body ok status (envelope e) t =
      (λ h. (ground arith, e, refl, ground arith, ground arith), λ (p, x, q, u, c). ground arith)

  -- A request yields a value exactly when the status is ok and the body is an envelope of that
  -- value which reports success.
  pub api_result_iff :
      (r : Response T) (t : T)
      → (api_result show r ≡ resolved t) ↔ (
          (r.ok ≡ true)
          × (e : ApiEnvelope T) × (r.body ≡ envelope e)
          × (e.success ≡ true)
          × (e.content ≡ t))
  unfolding api_result
  api_result_iff r t = by_body r.ok r.status r.body t

  -- An upload settles as a request does whose response is ok from 200 to 299.
  pub upload_loaded-api_result :
      (status : ℕ) (body : Body T)
      → upload_loaded show status body
        ≡ api_result show
            (record { ok = leb 200 status && ltb status 300; status = status; body = body })
  unfolding upload_loaded api_result
  upload_loaded-api_result status body = ground arith

  message_or-ne :
      (p : Option (ApiEnvelope T)) (fallback : String) → fallback ≢ "" → message_or p fallback ≢ ""
  message_or-ne none fallback h = h
  message_or-ne (some e) fallback h = ground (arith, str_eq_iff e.message "")

  by_body_rejected :
      (ok : Bool) (status : ℕ) (body : Body T) (e : ApiError)
      → api_result show (record { ok = ok; status = status; body = body }) ≡ rejected e
      → (e.status ≡ status) × (e.message ≢ "")
  unfolding api_result
  by_body_rejected false status body e h =
      ground (arith, message_or-ne (payload_of body) _ (failed_with-ne show status))
  by_body_rejected true status unreadable e h = ground (arith, str_eq_iff "响应格式无效" "")
  by_body_rejected true status falsy e h = ground (arith, str_eq_iff "响应格式无效" "")
  by_body_rejected true status (envelope x) e h =
      ground (arith, message_or-ne (some x) "请求失败", str_eq_iff "请求失败" "")

  -- A rejection carries the status of the response, and a message that is not empty.
  pub api_result-rejected :
      (r : Response T) (e : ApiError)
      → api_result show r ≡ rejected e
      → (e.status ≡ r.status) × (e.message ≢ "")
  unfolding api_result
  api_result-rejected r e h = by_body_rejected r.ok r.status r.body e h

-- Without headers of the caller's own, a request that is no form is sent as JSON, and a form is
-- sent without a content type, which the browser then writes.
pub fetch_options_default :
    (upper : String → String) (init : RequestInit)
    → init.headers ≡ none
    → has_header "content-type" (fetch_options upper init).headers ≡ not init.form_data
unfolding fetch_options built_headers
fetch_options_default upper init h = ground (arith, str_eq_iff "content-type" "content-type")

-- Headers of the caller's own lose the content type that is built for them: where they have none
-- and the request is no form, the built headers have one, and the request is sent without it.
pub fetch_options-built_headers :
    (upper : String → String) (init : RequestInit) (given : List (String × String))
    → init.headers ≡ some given
    → init.form_data ≡ false
    → has_header "content-type" given ≡ false
    → (has_header "content-type" (built_headers init) ≡ true)
      × (has_header "content-type" (fetch_options upper init).headers ≡ false)
unfolding fetch_options built_headers
fetch_options-built_headers upper init given h plain bare = (
  ground (
    arith,
    any-append (λ header. str_eq header.0 "content-type") given
        (("content-type", "application/json") ∷ []),
    str_eq_iff "content-type" "content-type",
  ),
  rw h bare,
)
