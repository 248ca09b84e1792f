-- ===== src/Shell.antt =====
-- The frame of the dashboard: server/web/store/app-shell.ts, and of server/web/components/layout the
-- effect of dashboard-sidebar.tsx and the handlers of dashboard-topbar.tsx, over the session of Auth.
pub mod Laws
use poolx.Common.{
  ℕ, Bool, true, false, not, ◌&&◌, List, [], ◌∷◌, if◌then◌else◌, ltb, leb, ◌==◌, nat_eq,
}
use poolx.Auth.Provider
use poolx.Auth.Provider.{logout_called, logout_settled}

pub record State : Type 0 where
  pub is_sidebar_collapsed : Bool
  pub is_mobile_sidebar_open : Bool
  pub is_logging_out : Bool
  pub is_user_menu_open : Bool
  pub session : Provider.State

abbrev pub initial : State
initial = record {
  is_sidebar_collapsed = false;
  is_mobile_sidebar_open = false;
  is_logging_out = false;
  is_user_menu_open = false;
  session = Provider.initial;
}

-- `toggle_sidebar` has the width of the window; `pointed` and `key_pressed` are the listeners of the
-- menu, with whether the pointer is in it and whether the key is Escape; `navigated` is a change of
-- the path, `dimmed` a click on the layer behind the sidebar or on one of its links.
pub data Event : Type 0 where
  toggle_clicked : (width : ℕ) → Event
  navigated dimmed menu_clicked logout_clicked : Event
  pointed : (inside : Bool) → Event
  key_pressed : (escape : Bool) → Event
  logout_answered : (succeeded : Bool) → Event

pub data Effect : Type 0 where
  send_logout replace_login : Effect

-- `handleSidebarToggle`.
unfoldable pub toggle_sidebar : ℕ → State → State
toggle_sidebar width s =
    if ltb width 1000
    then record s { is_mobile_sidebar_open = not s.is_mobile_sidebar_open }
    else record s { is_sidebar_collapsed = not s.is_sidebar_collapsed }

-- `handleLogout` up to its request, and after the answer: `logout` of the provider passes on an
-- error, which ends the handler.
unfoldable pub click_logout : State → State × List Effect
click_logout s =
    if s.is_user_menu_open && not s.is_logging_out
    then (
      record s {
        is_logging_out = true;
        is_user_menu_open = false;
        session = Provider.step logout_called s.session;
      },
      send_logout ∷ [],
    )
    else (s, [])

unfoldable pub answer_logout : Bool → State → State × List Effect
answer_logout succeeded s = (
  record s { session = Provider.step (logout_settled succeeded) s.session },
  if succeeded then replace_login ∷ [] else [],
)

unfoldable pub step : Event → State → State × List Effect
step (toggle_clicked width) s = (toggle_sidebar width s, [])
step navigated s = (record s { is_mobile_sidebar_open = false }, [])
step dimmed s = (record s { is_mobile_sidebar_open = false }, [])
step menu_clicked s = (record s { is_user_menu_open = not s.is_user_menu_open }, [])
step (pointed inside) s = (record s { is_user_menu_open = s.is_user_menu_open && inside }, [])
step (key_pressed escape) s =
    (record s { is_user_menu_open = s.is_user_menu_open && not escape }, [])
step logout_clicked s = click_logout s
step (logout_answered succeeded) s = answer_logout succeeded s
