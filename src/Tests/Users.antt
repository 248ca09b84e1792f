-- ===== src/Tests/Users.antt =====
-- The user page at concrete users and forms.
use poolx.Common.{
  refl, sym, arith, Bool-cases, inl, inr, true, map, List, ◌∷◌, false, [], Option, some, none, ◌≡◌,
  All, if◌then◌else◌,
}
use poolx.Common.Text.{units, trim, trim_end, trim_start, is_space}
use poolx.Users.{UserItem, delete}
use poolx.Users.Form.{UserFormValues, user_schema, to_payload}
use poolx.Users.Page.{
  State, Event, delete_button, manage_user, row_disabled, can_manage, action_of, handle_manage,
  asks, initial, is_admin, clicked, click, click_row, submit, create_user, save_request,
  edited_user, step,
}
use poolx.Users.Screen.{View, Row, pager, row_of, rows, screen, table}
use poolx.Users.Screen.Laws.{IsFaithful, row_user, screen-click}
use poolx.Users.Page.Laws.{Permitted, step-Permitted, Savable, step-Savable}

abbrev alice : UserItem
alice = record {
  id = 7;
  username = units "alice";
  display_name = [];
  role = 1;
  status = 1;
  email = none;
  github_id = none;
  wechat_id = none;
}

-- A form library that passes on what meets the schema as it is.
abbrev resolver : UserFormValues → Option UserFormValues
resolver values = if user_schema values then some values else none

-- A deletion that was confirmed.
abbrev deletion : Event
deletion = clicked (click_row delete_button false alice true)

deletes : (step resolver 100 initial deletion).1 ≡ manage_user (units "alice") delete ∷ []
unfolding step click is_admin row_disabled can_manage action_of handle_manage asks
deletes = refl

step-Permitted_example : All (Permitted 100 deletion) (step resolver 100 initial deletion).1
step-Permitted_example = step-Permitted resolver 100 initial deletion

abbrev entered : UserFormValues
entered = record { username = units "bob"; display_name = []; password = units "secret-12" }

abbrev creating : State
creating = record initial { is_editor_open = true; form = entered }

resolver-schema : (v w : UserFormValues) → resolver v ≡ some w → user_schema w ≡ true
resolver-schema v w h = elim (Bool-cases (user_schema v)) [
  | inl e ↦ let same : v ≡ w = ground (arith, e, h) in rw (sym same) e
  | inr e ↦ absurd (ground (arith, e, h))
]

-- The form is sent.
creates :
    (step resolver 100 creating (clicked (submit false))).1 ≡ create_user (to_payload entered) ∷ []
unfolding step click is_admin save_request edited_user user_schema to_payload trim trim_end
    trim_start is_space
creates = refl

step-Savable_example :
    All (Savable resolver 100 creating) (step resolver 100 creating (clicked (submit false))).1
step-Savable_example = step-Savable resolver 100 creating (clicked (submit false)) resolver-schema

abbrev view : View
view = record {
  list_loading = false;
  list_error = false;
  users = alice ∷ [];
  detail_loading = false;
  detail_error = false;
  detail = none;
  manage_pending = false;
  save_pending = false;
}

abbrev listed : List Row
listed = row_of 100 false alice ∷ []

screen-click_example :
    (map row_user listed ≡ view.users) × All (IsFaithful resolver 100 view initial) listed
unfolding screen is_admin pager table
screen-click_example =
    screen-click resolver 100 view initial
      (record {
        feedback = none;
        turning = pager view initial;
        listed = rows listed;
        editing = none;
      })
      listed refl refl
