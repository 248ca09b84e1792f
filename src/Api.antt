-- ===== src/Api.antt =====
-- The request client: server/web/lib/api/client.ts, types/api.ts, and the upload of
-- features/update/api/update.ts. `fetch` and `XMLHttpRequest` are the browser's: what they deliver
-- is an argument.
pub mod Laws
use poolx.Common.{
  ℕ, ◌<◌, Bool, true, false, not, ◌&&◌, ◌||◌, List, [], ◌∷◌, ◌++◌, Option, none, some, String, ltb,
  leb, str_eq, if◌then◌else◌, or_else, any, ◌==◌, nat_eq, string_eq,
}
use poolx.Common.Text.{Text, units, starts_with}
use Prim.Native.String.{◌++◌ as str_append}

-- `ApiEnvelope<T>`; `data` is the field `content`.
pub record ApiEnvelope (T : Type 0) : Type 0 where
  pub success : Bool
  pub message : String
  pub content : T

-- `class ApiError`.
pub record ApiError : Type 0 where
  pub message : String
  pub status : ℕ

-- The body of a response: no JSON, a JSON value that is falsy such as `null`, or an envelope.
pub data Body (T : Type 0) : Type 0 where
  unreadable : Body T
  falsy : Body T
  envelope : ApiEnvelope T → Body T

pub data Outcome (T : Type 0) : Type 0 where
  resolved : T → Outcome T
  rejected : ApiError → Outcome T

-- What `fetch` returns.
pub record Response (T : Type 0) : Type 0 where
  pub ok : Bool
  pub status : ℕ
  pub body : Body T

-- `payload`: `null` where `response.json()` throws.
abbrev pub payload_of : {T : Type 0} → Body T → Option (ApiEnvelope T)
payload_of unreadable = none
payload_of falsy = none
payload_of (envelope e) = some e

-- `payload?.message || fallback`.
abbrev pub message_or : {T : Type 0} → Option (ApiEnvelope T) → String → String
message_or none fallback = fallback
message_or (some e) fallback = if str_eq e.message "" then fallback else e.message

-- `show` prints the status: `请求失败（${status}）`.
module _ (show : ℕ → String) where
  unfoldable pub failed_with : ℕ → String
  failed_with status = str_append "请求失败（" (str_append (show status) "）")

  -- The checks at the end of `apiRequest`, in their order.
  unfoldable pub api_result : {T : Type 0} → Response T → Outcome T
  api_result r =
      let payload = payload_of r.body in
      if not r.ok
      then rejected
          (record { message = message_or payload (failed_with r.status); status = r.status })
      else elim payload [
        | none ↦ rejected (record { message = "响应格式无效"; status = r.status })
        | some e ↦
            if not e.success
            then rejected (record { message = message_or (some e) "请求失败"; status = r.status })
            else resolved e.content
      ]

  -- The `load` listener of `uploadServerBinary`.
  unfoldable pub upload_loaded : {T : Type 0} → ℕ → Body T → Outcome T
  upload_loaded status body =
      let payload = payload_of body in
      if ltb status 200 || leb 300 status
      then rejected (record { message = message_or payload (failed_with status); status = status })
      else elim payload [
        | none ↦ rejected (record { message = "响应格式无效"; status = status })
        | some e ↦
            if not e.success
            then rejected (record { message = message_or (some e) "请求失败"; status = status })
            else resolved e.content
      ]

-- The `error` listener of `uploadServerBinary`.
unfoldable pub upload_failed : {T : Type 0} → Outcome T
upload_failed = rejected (record { message = "上传过程中网络连接中断，请检查网络后重试"; status = 0 })

-- `RequestInit`, as far as the client reads it; `form_data` is `init.body instanceof FormData`.
pub record RequestInit : Type 0 where
  pub method : Option String
  pub headers : Option (List (String × String))
  pub form_data : Bool
  pub cache : Option String

-- The options that `fetch` is called with.
pub record FetchOptions : Type 0 where
  pub method : Option String
  pub headers : List (String × String)
  pub form_data : Bool
  pub cache : Option String
  pub include_credentials : Bool

-- `headers.has(name)`; the names are written in lower case.
abbrev pub has_header : String → List (String × String) → Bool
has_header name = any (λ h. str_eq h.0 name)

-- The headers that `apiRequest` builds.
unfoldable pub built_headers : RequestInit → List (String × String)
built_headers init =
    let given = or_else init.headers [] in
    if not init.form_data && not (has_header "content-type" given)
    then given ++ ("content-type", "application/json") ∷ []
    else given

-- The options of the call: the built ones, then `...init`, whose fields replace them.
-- `upper` is `toUpperCase`.
unfoldable pub fetch_options : (String → String) → RequestInit → FetchOptions
unfolding built_headers
fetch_options upper init = record {
  method = init.method;
  headers = or_else init.headers (built_headers init);
  form_data = init.form_data;
  cache = elim init.cache [
    | some c ↦ some c
    | none ↦
        let method : String = elim init.method [ some m ↦ upper m | none ↦ "GET" ] in
        if str_eq method "GET" then some "no-store" else none
  ];
  include_credentials = true;
}

-- `getApiUrl`.
unfoldable pub get_api_url : Text → Text → Text
get_api_url base path =
    let normalized_path = if starts_with path (units "/") then path else units "/" ++ path in
    base ++ normalized_path
