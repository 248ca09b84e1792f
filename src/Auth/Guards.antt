-- ===== src/Auth/Guards.antt =====
-- features/auth/components/dashboard-auth-guard.tsx and public-auth-guard.tsx: what they show, and
-- where they send the browser. `encode` is `encodeURIComponent`, `redirect` is
-- `searchParams.get('redirect')`.
pub mod Laws
use poolx.Common.{
  Bool, true, false, not, ◌&&◌, ◌||◌, List, [], ◌∷◌, ◌++◌, Option, none, some, if◌then◌else◌,
  or_else, is_empty, ◌==◌, list_eq, nat_eq,
}
use poolx.Common.Text.{Text, units}
use poolx.Auth.Provider.{State, is_authenticated}

pub data Shown : Type 0 where
  loading nothing children : Shown

unfoldable pub dashboard_shows : State → Shown
dashboard_shows s = if s.is_loading || not (is_authenticated s) then loading else children

-- The query that the guard adds; `pathname` may be null.
unfoldable pub redirect_query : (Text → Text) → Option Text → Text
redirect_query encode none = []
redirect_query encode (some path) =
    if not (is_empty path) && not (path == units "/") then units "?redirect=" ++ encode path else []

-- The argument of `router.replace`, where the effect calls it.
unfoldable pub dashboard_redirect : (Text → Text) → Option Text → State → Option Text
dashboard_redirect encode pathname s =
    if not s.is_loading && not (is_authenticated s)
    then some (units "/login" ++ redirect_query encode pathname)
    else none

unfoldable pub public_shows : State → Shown
public_shows s =
    if s.is_loading then loading else (if is_authenticated s then nothing else children)

-- `redirect || '/'`.
abbrev pub target_of : Option Text → Text
target_of none = units "/"
target_of (some path) = if is_empty path then units "/" else path

unfoldable pub public_redirect : Option Text → State → Option Text
public_redirect redirect s =
    if not s.is_loading && is_authenticated s then some (target_of redirect) else none
