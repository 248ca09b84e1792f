-- ===== src/Shell/Laws.antt =====
-- The way out of the dashboard.
use poolx.Common.{
  suc, Bool, true, false, [], ◌∷◌, ◌++◌, Option, none, some, ◌≡◌, refl, arith, if◌then◌else◌, ◌==◌,
  nat_eq,
}
use poolx.Common.Text.{Text, units}
use poolx.Auth.Provider
use poolx.Auth.Provider.{settled, is_authenticated}
use poolx.Auth.Guards.{dashboard_redirect, redirect_query}
use poolx.Shell.{
  State, answer_logout, click_logout, logout_answered, logout_clicked, replace_login, send_logout,
  step,
}

-- A logout ends the session whatever the server answers: after the button and the answer, nobody is
-- signed in and the guard of the dashboard sends the browser to the login. The bar itself goes
-- there only when the request has succeeded, and its button stays disabled in both cases.
pub step-logout :
    (encode : Text → Text) (pathname : Option Text) (succeeded : Bool) (s : State)
    → s.is_user_menu_open ≡ true
    → s.is_logging_out ≡ false
    → let t = (step logout_clicked s).0 in
      let u = (step (logout_answered succeeded) t).0 in
      ((step logout_clicked s).1 ≡ send_logout ∷ [])
      × (u.session.user ≡ none)
      × (dashboard_redirect encode pathname u.session
          ≡ some (units "/login" ++ redirect_query encode pathname))
      × ((step (logout_answered succeeded) t).1 ≡ (if succeeded then replace_login ∷ [] else []))
      × (u.is_logging_out ≡ true)
unfolding step click_logout answer_logout Provider.step settled dashboard_redirect is_authenticated
step-logout encode pathname succeeded s menu idle =
    let asked : (suc s.session.leaving == 0) ≡ false = ground arith in
    rw (menu, idle, asked) (refl, refl, refl, refl, refl)
