-- ===== src/Auth/Forms/Login/Laws.antt =====
-- The login form, the session and the guard of the public pages.
use poolx.Common.{[], ◌∷◌, Option, some, ◌≡◌, refl}
use poolx.Common.Text.{Text}
use poolx.Auth.{AuthUser, LoginPayload}
use poolx.Auth.Provider.{State as Session, settled, is_authenticated}
use poolx.Auth.Guards.{public_redirect, target_of}
use poolx.Auth.Forms.Login.{State, set_user, replace, succeeded, step}

-- The form and the guard agree on where a login leads: when a login succeeds, the form signs the
-- user in and goes to one page, and the guard, which sees the session that this sets, goes to the
-- same one.
pub public_redirect-step :
    (resolver : LoginPayload → Option LoginPayload) (redirect : Option Text) (s : State)
    (session : Session) (user : AuthUser)
    → (path : Text) × ((step resolver redirect s (succeeded user)).1
        ≡ set_user user ∷ replace path ∷ [])
      × (public_redirect redirect (settled (some user) session) ≡ some path)
unfolding step settled public_redirect is_authenticated
public_redirect-step resolver redirect s session user = (target_of redirect, refl, refl)
