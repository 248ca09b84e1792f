-- ===== src/Users/Screen/Laws.antt =====
-- The buttons of the user page do what they say.
use poolx.Common.{
  ℕ, true, not, List, [], ◌∷◌, Option, map, if◌then◌else◌, All, ◌≡◌, refl, ap, sym, ◌∙◌, arith,
  Bool-cases, inl, inr,
}
use poolx.Users.{UserItem, ManageUserAction}
use poolx.Users.Form.{UserFormValues}
use poolx.Users.Page.{
  State, manage_user, RowButton, status_button, role_button, delete_button, clicked, click_row,
  action_of, click, handle_manage, is_admin, row_disabled, step,
}
use poolx.Users.Screen.{
  View, Button, Row, Panel, shown, rows, action_text, button_label, row_of, screen, table,
}

abbrev pub row_user : Row → UserItem
row_user r = r.user

module _ (resolver : UserFormValues → Option UserFormValues) (role : ℕ) (v : View) (s : State) where
  -- A click on a button of a row, with yes for an answer, sends one request where the button is
  -- enabled and none where it is not; the request is about the user of the row, and its action is the
  -- one that the button names.
  abbrev pub SaysSo : Row → RowButton → Button → Type 0
  SaysSo r b shown_button =
      (action : ManageUserAction) × (action_text action ≡ shown_button.label)
      × ((step resolver role s (clicked (click_row b v.manage_pending r.user true))).1
          ≡ (if shown_button.enabled then manage_user r.user.username action ∷ [] else []))

  abbrev pub IsFaithful : Row → Type 0
  IsFaithful r =
      SaysSo r status_button r.status_action
      × SaysSo r role_button r.role_action
      × SaysSo r delete_button r.delete_action

  says :
      (target : UserItem) (b : RowButton)
      → is_admin role ≡ true
      → action_text (action_of b target) ≡ button_label b target
  unfolding action_of action_text button_label
  says target status_button admin = ground arith
  says target role_button admin = ground arith
  says target delete_button admin = ground arith

  sends :
      (target : UserItem) (b : RowButton)
      → is_admin role ≡ true
      → (step resolver role s (clicked (click_row b v.manage_pending target true))).1 ≡ (
          if not (row_disabled role b v.manage_pending target)
          then manage_user target.username (action_of b target) ∷ []
          else [])
  unfolding step click handle_manage
  sends target b admin = elim (Bool-cases (row_disabled role b v.manage_pending target)) [
    | inl stop ↦ rw (admin, stop) refl
    | inr go ↦ rw (admin, go) (ground arith)
  ]

  row_of-IsFaithful :
      (target : UserItem) → is_admin role ≡ true → IsFaithful (row_of role v.manage_pending target)
  unfolding row_of
  row_of-IsFaithful target admin = (
    (
      action_of status_button target,
      says target status_button admin,
      sends target status_button admin,
    ),
    (action_of role_button target, says target role_button admin, sends target role_button admin),
    (
      action_of delete_button target,
      says target delete_button admin,
      sends target delete_button admin,
    ),
  )

  users_of :
      (users : List UserItem) → map row_user (map (row_of role v.manage_pending) users) ≡ users
  unfolding row_of
  users_of [] = refl
  users_of (x ∷ xs) = ap (x ∷◌) (users_of xs)

  rows-IsFaithful :
      (users : List UserItem)
      → is_admin role ≡ true
      → All IsFaithful (map (row_of role v.manage_pending) users)
  rows-IsFaithful [] admin = tt
  rows-IsFaithful (x ∷ xs) admin = (row_of-IsFaithful x admin, rows-IsFaithful xs admin)

  screen-shown :
      (p : Panel) → screen role v s ≡ shown p → (is_admin role ≡ true) × (p.listed ≡ table role v)
  unfolding screen
  screen-shown p h = elim (Bool-cases (is_admin role)) [
    | inl e ↦ (e, ground (arith, e, h))
    | inr e ↦ absurd (ground (arith, e, h))
  ]

  table-rows :
      (listed : List Row)
      → table role v ≡ rows listed
      → listed ≡ map (row_of role v.manage_pending) v.users
  unfolding table
  table-rows listed h = ground (arith, h)

  -- The buttons of the list do what they say: where the page shows a list, its rows are the users of
  -- the query in their order, and for each button of each row, a click that is answered with yes
  -- sends one request where the button is enabled and none where it is not; that request is about the
  -- user of the row, and its action is the one that the button names.
  pub screen-click :
      (p : Panel) (listed : List Row)
      → screen role v s ≡ shown p
      → p.listed ≡ rows listed
      → (map row_user listed ≡ v.users) × All IsFaithful listed
  screen-click p listed h l =
      let (admin, is_table) = screen-shown p h in
      let all = table-rows listed (sym is_table ∙ l) in
      (rw all (users_of v.users), rw all (rows-IsFaithful v.users admin))
