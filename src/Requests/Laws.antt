-- ===== src/Requests/Laws.antt =====
-- What a request carries and how it goes out, for every function of features/*/api.
pub mod Shapes
pub mod Settings
pub mod Users
pub mod Nodes
pub mod Kernel
use poolx.Common.{
  ℕ, Bool, true, false, if◌then◌else◌, List, [], ◌∷◌, Option, none, some, String, leb, ltb, ◌&&◌,
  ◌≡◌, refl, arith, ap, ◌∙◌, str_eq, str_eq_iff,
}
use poolx.Api.{Body, Outcome, FetchOptions, fetch_options, built_headers, api_result, upload_loaded}
use poolx.Api.Laws.{upload_loaded-api_result}
use poolx.Common.Text.{Text}
use poolx.Url.Laws.{AreWellFormed}
use poolx.Url.Reading.{read_url}
use poolx.Requests.{no_body, Request, init_of}
use poolx.Requests.Settings.{
  Upload, by_fetch, by_xhr, XhrRequest, upload_mihomo_binary, upload_server_binary, mihomo_loaded,
}
use poolx.Requests.Calls.{Call, settings, users, nodes, kernel, request_of}
use poolx.Requests.Parameters.{parameters_of}
use poolx.Requests.Laws.Shapes.{Shape, as_get, as_post, Served}
use poolx.Requests.Laws.Settings.{settings_request-Served}
use poolx.Requests.Laws.Users.{user_request-Served}
use poolx.Requests.Laws.Nodes.{node_request-Served}
use poolx.Requests.Laws.Kernel.{kernel_request-Served}

-- The options with which a request goes out: a GET that reads past the cache and has no body, or a
-- POST.
pub data Sends {File : Type 0} (r : Request File) (o : FetchOptions) : Type 0 where
  by_get : (o.cache ≡ some "no-store") → o.method ≡ none → r.body ≡ no_body → Sends r o
  by_post : o.method ≡ some "POST" → o.cache ≡ none → Sends r o

module _ {File : Type 0} where
  request_of-Served :
      (c : Call File) → AreWellFormed (parameters_of c) → Served (request_of c) (parameters_of c)
  unfolding request_of parameters_of
  request_of-Served (settings c) w = settings_request-Served c w
  request_of-Served (users c) w = user_request-Served c w
  request_of-Served (nodes c) w = node_request-Served c w
  request_of-Served (kernel c) w = kernel_request-Served c w

  Shape-Sends :
      (upper : String → String)
      → upper "POST" ≡ "POST"
      → (r : Request File) → Shape r
      → Sends r (fetch_options upper (init_of r))
  unfolding fetch_options init_of
  Shape-Sends upper h r (as_get m b) = by_get (rw m refl) m b
  Shape-Sends upper h r (as_post m) = by_post m (rw m (rw h refl))

  -- Where the texts among its parameters are well-formed, every function makes its request; the query
  -- of the request is read as exactly these parameters, whatever else the texts hold; and the request
  -- goes out as a GET past the cache and without a body, or as a POST.
  pub request_of-parameters :
      (upper : String → String)
      → upper "POST" ≡ "POST"
      → (c : Call File) → AreWellFormed (parameters_of c)
      → (r : Request File) × (request_of c ≡ some r)
        × ((read_url r.path).1 ≡ parameters_of c)
        × Sends r (fetch_options upper (init_of r))
  request_of-parameters upper h c w =
      let (r, made, read, shape) = request_of-Served c w in
      (r, made, read, Shape-Sends upper h r shape)

-- An upload whose progress is watched, and the same without: what they have in common.
pub record AreAlike {File : Type 0} (upper : String → String) (watched plain : Upload File)
    : Type 0 where
  pub xhr : XhrRequest File
  pub request : Request File
  pub watched_by : watched ≡ by_xhr xhr
  pub plain_by : plain ≡ by_fetch request
  pub path : xhr.path ≡ request.path
  pub method : some xhr.method ≡ (fetch_options upper (init_of request)).method
  pub credentials :
      xhr.with_credentials ≡ (fetch_options upper (init_of request)).include_credentials
  pub body : xhr.body ≡ request.body

-- Whether its progress is watched or not, an upload of the kernel or of the server sends the same
-- form to the same path with the same method and credentials, and its listener settles it as a
-- request is settled whose response is ok from 200 to 299.
pub uploads-AreAlike :
    {File T : Type 0} (upper : String → String) (show : ℕ → String)
    → (binary : File) (install_path : Text) (status : ℕ) (body : Body T)
    → AreAlike upper
        (upload_mihomo_binary binary install_path true)
        (upload_mihomo_binary binary install_path false)
      × AreAlike upper (upload_server_binary binary true) (upload_server_binary binary false)
      × (mihomo_loaded show status body
          ≡ api_result show
              (record { ok = leb 200 status && ltb status 300; status = status; body = body }))
      × (upload_loaded show status body
          ≡ api_result show
              (record { ok = leb 200 status && ltb status 300; status = status; body = body }))
unfolding upload_mihomo_binary upload_server_binary mihomo_loaded upload_loaded fetch_options
    init_of
uploads-AreAlike upper show binary install_path status body = (
  record {
    xhr = _;
    request = _;
    watched_by = refl;
    plain_by = refl;
    path = refl;
    method = refl;
    credentials = refl;
    body = refl;
  },
  record {
    xhr = _;
    request = _;
    watched_by = refl;
    plain_by = refl;
    path = refl;
    method = refl;
    credentials = refl;
    body = refl;
  },
  upload_loaded-api_result show status body,
  upload_loaded-api_result show status body,
)
