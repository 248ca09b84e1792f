-- ===== src/Tests/Auth.antt =====
-- The session, the guards and the forms at concrete users and answers.
use poolx.Url.{encode_uri_component, code_points, points_from}
use poolx.Url.Laws.{IsWellFormed, IsWellFormed-test}
use poolx.Url.Reading.{read_url}
use poolx.Common.{
  or_else, List, Bool, true, false, [], ◌∷◌, ◌++◌, Option, none, some, ◌≡◌, refl, arith, All,
  if◌then◌else◌, Bool-cases, inl, inr, ◌⊎◌, any, ◌==◌, nat_eq,
}
use poolx.Common.Text.{Text, units}
use poolx.Auth.{AuthUser}
use poolx.Auth.Provider
use poolx.Auth.Provider.{
  initial, run, step, settled, refresh_settled, logout_called, refresh_called, logout_settled,
  user_set,
}
use poolx.Auth.Provider.Laws.{run-answered}
use poolx.Auth.Guards.{
  loading, nothing, children, dashboard_shows, dashboard_redirect, redirect_query, public_shows,
  public_redirect, target_of,
}
use poolx.Auth.Guards.Laws.{guards_lem, public_redirect-encoded, redirect_param}
use poolx.Shell
use poolx.Shell.Laws.{step-logout}
use poolx.Turnstile
use poolx.Turnstile.Laws.{IsSingle, run-initial-IsSingle}
use poolx.Auth.Forms.Register
use poolx.Auth.Forms.Register.Laws.{Registrable, step-Registrable}
use poolx.Auth.Forms.Reset.{has_confirmation_params}

abbrev alice : AuthUser
alice = record {
  id = 7;
  username = units "alice";
  display_name = [];
  role = 1;
  status = 1;
  email = none;
  github_id = none;
  wechat_id = none;
}

run-answered_example :
    (run
      (logout_called ∷ refresh_called ∷ [])
      (step (refresh_settled none) (run (user_set (some alice) ∷ []) initial))).is_loading
    ≡ false
run-answered_example =
    run-answered (user_set (some alice) ∷ []) (logout_called ∷ refresh_called ∷ []) none

-- The browser's functions at the paths of the tests: nothing in them is escaped.
abbrev as_is : Text → Text
as_is path = path

abbrev known : Provider.State
known = settled none initial

guards_lem_example :
    ((known.is_loading ≡ true)
      × (dashboard_shows known ≡ loading)
      × (public_shows known ≡ loading)
      × (dashboard_redirect as_is (some (units "/nodes")) known ≡ none)
      × (public_redirect none known ≡ none))
    ⊎ (((user : AuthUser) × (known.user ≡ some user)
          × (dashboard_shows known ≡ children)
          × (public_shows known ≡ nothing)
          × (dashboard_redirect as_is (some (units "/nodes")) known ≡ none)
          × (public_redirect none known ≡ some (target_of none)))
        ⊎ ((known.user ≡ none)
            × (dashboard_shows known ≡ loading)
            × (public_shows known ≡ children)
            × (dashboard_redirect as_is (some (units "/nodes")) known
                ≡ some (units "/login" ++ redirect_query as_is (some (units "/nodes"))))
            × (public_redirect none known ≡ none)))
guards_lem_example = guards_lem as_is (some (units "/nodes")) none known

abbrev written : Text → Text
written path = or_else (encode_uri_component path) []

nodes-IsWellFormed : IsWellFormed (units "/nodes?a=1&b")
unfolding code_points points_from
nodes-IsWellFormed = IsWellFormed-test (units "/nodes?a=1&b") refl refl

nodes_written : encode_uri_component (units "/nodes?a=1&b") ≡ some (written (units "/nodes?a=1&b"))
unfolding encode_uri_component code_points points_from
nodes_written = refl

public_redirect-encoded_example :
    (url : Text) × (dashboard_redirect written (some (units "/nodes?a=1&b")) (settled none initial)
      ≡ some url)
    × (public_redirect (redirect_param (read_url url).1) (settled (some alice) initial)
        ≡ some (units "/nodes?a=1&b"))
public_redirect-encoded_example =
    public_redirect-encoded written (units "/nodes?a=1&b") alice initial nodes-IsWellFormed
      nodes_written refl

-- A test of addresses that wants an `@`, and a form library that passes on what meets the schema.
abbrev has_at : Text → Bool
has_at s = any (λ c. c == b'@') s

abbrev resolver : Register.RegisterFormValues → Option Register.RegisterFormValues
resolver values = if Register.schema has_at false values then some values else none

resolver_passes :
    (v w : Register.RegisterFormValues)
    → resolver v ≡ some w
    → Register.schema has_at false w ≡ true
resolver_passes v w e = elim (Bool-cases (Register.schema has_at false v)) [
  | inl valid ↦ ground (arith, e, valid)
  | inr invalid ↦ ground (arith, e, invalid)
]

abbrev filled : Register.State
filled = record Register.initial {
  form = record Register.default_values {
    username = units "bob";
    password = units "12345678";
    password2 = units "12345678";
  };
}

step-Registrable_example :
    All
      (Registrable has_at false false filled)
      (Register.step resolver false false filled (Register.submitted false)).1
step-Registrable_example =
    step-Registrable has_at false false resolver resolver_passes filled (Register.submitted false)

reset-links : (has_confirmation_params (some (units "a@b")) none ≡ false)
unfolding has_confirmation_params
reset-links = refl

-- A new function makes the component show the test again, as another widget.
abbrev shown_twice : List Turnstile.Event
shown_twice = Turnstile.appeared ∷ Turnstile.script_loaded ∷ Turnstile.changed ∷ []

second-widget : (Turnstile.run shown_twice Turnstile.initial).live ≡ 1 ∷ []
unfolding Turnstile.run Turnstile.step Turnstile.run_effect Turnstile.mount_widget Turnstile.render
    Turnstile.remove_old Turnstile.clean_up Turnstile.remove
second-widget = refl

run-initial-IsSingle_example : IsSingle (Turnstile.run shown_twice Turnstile.initial)
run-initial-IsSingle_example = run-initial-IsSingle shown_twice

-- The menu is open for somebody who is signed in.
abbrev leaving : Shell.State
leaving = record Shell.initial { is_user_menu_open = true; session = settled (some alice) initial }

step-logout_example :
    let t = (Shell.step Shell.logout_clicked leaving).0 in
    let u = (Shell.step (Shell.logout_answered false) t).0 in
    ((Shell.step Shell.logout_clicked leaving).1 ≡ Shell.send_logout ∷ [])
    × (u.session.user ≡ none)
    × (dashboard_redirect as_is none u.session ≡ some (units "/login" ++ redirect_query as_is none))
    × ((Shell.step (Shell.logout_answered false) t).1
        ≡ (if false then Shell.replace_login ∷ [] else []))
    × (u.is_logging_out ≡ true)
step-logout_example = step-logout as_is none false leaving refl refl
