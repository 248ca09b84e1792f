-- ===== src/Auth/Guards/Laws.antt =====
-- The guards and the session together.
use poolx.Common.{
  ◌<◌, true, false, List, [], ◌∷◌, ◌++◌, if◌then◌else◌, ◌∙◌, Option, none, some, ◌≡◌, refl, ap, sym,
  arith, ◌⊎◌, inl, inr, is_empty, Bool-cases, Option-cases, ◌==◌, nat_eq, list_eq, list_beq_iff,
}
use poolx.Common.Text.{Text, units, split, split_from}
use poolx.Url.{encode_uri_component}
use poolx.Url.Laws.{IsWellFormed}
use poolx.Url.Paths.{parameters_of_component}
use poolx.Url.Reading.{read_url, read_query, read_text, text_of, read_utf8, unescape, cut}
use poolx.Auth.{AuthUser}
use poolx.Auth.Provider.{
  State, step, run, settled, is_authenticated, logout_settled, refresh_settled,
}
use poolx.Auth.Guards.{
  loading, nothing, children, dashboard_shows, dashboard_redirect, redirect_query, public_shows,
  public_redirect, target_of,
}

-- The guards never work against each other. In every state of the session, one of three holds: it
-- is loading, and both guards wait and send nobody anywhere; somebody is signed in, the dashboard is
-- shown, and the public pages show nothing and send the browser to the page it asked for; or nobody
-- is, the public pages are shown, and the dashboard shows nothing of its own and sends the browser
-- to the login.
pub guards_lem :
    (encode : Text → Text) (pathname redirect : Option Text) (s : State)
    → ((s.is_loading ≡ true)
        × (dashboard_shows s ≡ loading)
        × (public_shows s ≡ loading)
        × (dashboard_redirect encode pathname s ≡ none)
        × (public_redirect redirect s ≡ none))
      ⊎ (((user : AuthUser) × (s.user ≡ some user)
            × (dashboard_shows s ≡ children)
            × (public_shows s ≡ nothing)
            × (dashboard_redirect encode pathname s ≡ none)
            × (public_redirect redirect s ≡ some (target_of redirect)))
          ⊎ ((s.user ≡ none)
              × (dashboard_shows s ≡ loading)
              × (public_shows s ≡ children)
              × (dashboard_redirect encode pathname s
                  ≡ some (units "/login" ++ redirect_query encode pathname))
              × (public_redirect redirect s ≡ none)))
unfolding dashboard_shows public_shows dashboard_redirect public_redirect is_authenticated
guards_lem encode pathname redirect s = elim (Bool-cases s.is_loading) [
  | inl l ↦ inl (l, rw l refl, rw l refl, rw l refl, rw l refl)
  | inr l ↦ elim (Option-cases s.user) [
    | inr (user, u) ↦
        inr (inl (user, u, rw (l, u) refl, rw (l, u) refl, rw (l, u) refl, rw (l, u) refl))
    | inl u ↦ inr (inr (u, rw (l, u) refl, rw (l, u) refl, rw (l, u) refl, rw (l, u) refl))
  ]
]

-- A login leads back: where the query of a URL is read as it was written, somebody who asks for a
-- page without a session is sent to a URL of the login page, and once signed in from there to the
-- page that was asked for.
pub public_redirect-dashboard_redirect :
    (encode : Text → Text) (get_redirect : Text → Option Text)
    → ((path : Text) → get_redirect (units "/login?redirect=" ++ encode path) ≡ some path)
    → (get_redirect (units "/login") ≡ none)
    → (path : Text) (user : AuthUser) (s : State) → is_empty path ≡ false
    → (url : Text) × (dashboard_redirect encode (some path) (settled none s) ≡ some url)
      × (public_redirect (get_redirect url) (settled (some user) s) ≡ some path)
unfolding dashboard_redirect public_redirect is_authenticated redirect_query settled
public_redirect-dashboard_redirect encode get_redirect read plain path user s full =
    elim (Bool-cases (path == units "/")) [
      | inl e ↦
          let home : path ≡ units "/" = (list_beq_iff path (units "/")).0 e in
          (units "/login", rw (full, e) refl, rw plain (ap some (sym home)))
      | inr e ↦
          (units "/login?redirect=" ++ encode path, rw (full, e) refl, rw (read path, full) refl)
    ]

-- A late answer signs in again: where a request for the user was sent before a logout and its answer
-- comes after that of the logout, the session holds the user again, and the dashboard is shown.
pub dashboard_shows-late :
    (user : AuthUser) (s : State)
    → 0 < s.refreshing
    → 0 < s.leaving
    → dashboard_shows (run (logout_settled true ∷ refresh_settled (some user) ∷ []) s) ≡ children
unfolding run step settled dashboard_shows is_authenticated
dashboard_shows-late user s asked left =
    let a : (s.leaving == 0) ≡ false = ground arith in
    let b : (s.refreshing == 0) ≡ false = ground arith in rw (a, b) refl

-- `searchParams.get('redirect')`, for the URL of the page.
unfoldable pub redirect_param : List (Text × Text) → Option Text
redirect_param [] = none
redirect_param ((name, value) ∷ params) =
    if name == units "redirect" then some value else redirect_param params

redirect_param-written :
    (path written : Text)
    → encode_uri_component path ≡ some written
    → IsWellFormed path
    → redirect_param (read_url (units "/login?redirect=" ++ written)).1 ≡ some path
unfolding redirect_param read_text text_of read_utf8 unescape
redirect_param-written path written e w =
    let (text, made, read) =
      parameters_of_component (units "/login") (units "redirect") path refl refl refl refl w in
    let same : written ≡ text = cc in rw same (rw read refl)

login_plain : some (target_of (redirect_param (read_url (units "/login")).1)) ≡ some (units "/")
unfolding redirect_param read_url read_query split split_from cut
login_plain = refl

-- A login leads back to the page that was asked for, whatever its path holds: where nobody is signed
-- in, the dashboard sends somebody who asks for the page to a URL of the login, which encodes the
-- path; once signed in, the login reads the path from that URL and sends the browser to it.
pub public_redirect-encoded :
    (encode : Text → Text) (path : Text) (user : AuthUser) (s : State)
    → IsWellFormed path
    → encode_uri_component path ≡ some (encode path)
    → is_empty path ≡ false
    → (url : Text) × (dashboard_redirect encode (some path) (settled none s) ≡ some url)
      × (public_redirect (redirect_param (read_url url).1) (settled (some user) s) ≡ some path)
unfolding dashboard_redirect public_redirect is_authenticated redirect_query settled
public_redirect-encoded encode path user s w e full = elim (Bool-cases (path == units "/")) [
  | inl home ↦
      let same : path ≡ units "/" = (list_beq_iff path (units "/")).0 home in
      (units "/login", rw (full, home) refl, login_plain ∙ ap some (sym same))
  | inr other ↦ (
    units "/login?redirect=" ++ encode path,
    rw (full, other) refl,
    rw (redirect_param-written path (encode path) e w, full) refl,
  )
]
