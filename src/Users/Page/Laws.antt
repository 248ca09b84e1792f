-- ===== src/Users/Page/Laws.antt =====
-- What the user page lets pass: who may manage whom, and which users may be saved.
use poolx.Common.{
  ℕ, zero, suc, ap, ◌≤◌, ◌<◌, Bool, true, false, not, ◌||◌, [], ◌∷◌, Option, none, some, length,
  is_empty, nat_eq, list_eq, list_beq_iff, All, ◌≡◌, ◌⊎◌, inl, inr, refl, arith, Bool-cases,
}
use poolx.Common.Text.{Text, trim}
use poolx.Ui.{an_error}
use poolx.Users.{UserItem, ManageUserAction, promote, demote, delete}
use poolx.Users.Form.{UserFormValues, user_schema, to_payload}
use poolx.Users.Page.{
  State, Effect, create_user, update_user, reject_save, manage_user, RowButton, status_button,
  role_button, delete_button, Event, clicked, click_row, submit, is_admin, is_root, can_manage,
  action_of, row_disabled, asks, handle_manage, edited_user, save_request, click, step,
}

-- What holds where a button of a row sends a request.
pub record IsPermitted (role : ℕ) (button : RowButton) (pending : Bool) (target : UserItem)
    (confirmed : Bool) (action : ManageUserAction) : Type 0 where
  pub idle : pending ≡ false
  pub admin : 10 ≤ role
  pub above : target.role < role
  pub root : action ≡ promote → 100 ≤ role
  pub kept : (action ≡ promote) ⊎ (action ≡ demote) ⊎ (confirmed ≡ true)
  pub meant :
      (action ≡ delete → button ≡ delete_button) × (button ≡ delete_button → action ≡ delete)

-- What lets an event send a request that manages a user.
abbrev pub Permitted : ℕ → Event → Effect → Type 0
Permitted role (clicked (click_row button pending target confirmed)) (manage_user username action) =
    (username ≡ target.username) × IsPermitted role button pending target confirmed action
Permitted role e (manage_user username action) = ⊥
Permitted role e _ = Unit

module _ (editing : Option ℕ) (values : UserFormValues) where
  save_request-rejected :
      edited_user editing ≡ none
      → is_empty values.password ≡ true
      → save_request editing values ≡ reject_save (an_error "创建用户时必须填写密码。")
  unfolding save_request
  save_request-rejected e empty = ground arith

  save_request-created :
      edited_user editing ≡ none
      → is_empty values.password ≡ false
      → save_request editing values ≡ create_user (to_payload values)
  unfolding save_request
  save_request-created e entered = ground arith

  save_request-updated :
      (id : ℕ)
      → edited_user editing ≡ some id
      → save_request editing values ≡ update_user id (to_payload values)
  unfolding save_request
  save_request-updated id e = ground arith

length-empty : (t : Text) → length t ≡ 0 → t ≡ []
length-empty [] h = refl
length-empty (c ∷ s) h = cc

password_entered :
    (values : UserFormValues)
    → is_empty values.password ≡ false
    → ¬ (length (to_payload values).password ≡ 0)
unfolding to_payload
password_entered values entered h = ground (arith, length-empty values.password)

password_empty :
    (values : UserFormValues)
    → length (to_payload values).password ≡ 0
    → (to_payload values).password ≡ []
unfolding to_payload
password_empty values h = length-empty values.password h

edited_user-none :
    (editing : Option ℕ) → edited_user editing ≡ none → (editing ≡ none) ⊎ (editing ≡ some 0)
unfolding edited_user
edited_user-none none e = inl refl
edited_user-none (some zero) e = inr refl
edited_user-none (some (suc n)) e = absurd (ground arith)

edited_user-some :
    (editing : Option ℕ) (id : ℕ) → edited_user editing ≡ some id → (editing ≡ some id) × (0 < id)
unfolding edited_user
edited_user-some none id e = absurd (ground arith)
edited_user-some (some zero) id e = absurd (ground arith)
edited_user-some (some (suc n)) id e =
    let same : suc n ≡ id = ground arith in (ap some same, omega arith)

module _ (resolver : UserFormValues → Option UserFormValues) (role : ℕ) where
  row-Permitted :
      (s : State) (button : RowButton) (pending : Bool) (target : UserItem) (confirmed : Bool)
      → All
          (Permitted role (clicked (click_row button pending target confirmed)))
          (step resolver role s (clicked (click_row button pending target confirmed))).1
  unfolding step click is_admin row_disabled can_manage is_root handle_manage action_of asks
  row-Permitted s status_button pending target confirmed = ground arith
  row-Permitted s role_button pending target confirmed = ground arith
  row-Permitted s delete_button pending target confirmed = ground arith

  -- A request that manages a user is sent only by a button of that user's row, for an administrator
  -- whose role is above the user's; a promotion only for a root user; a deletion by the button that
  -- deletes, and by no other; and whatever is neither a promotion nor a demotion, so a ban, its end
  -- and a deletion, only after the question was answered yes.
  pub step-Permitted : (s : State) (e : Event) → All (Permitted role e) (step resolver role s e).1
  unfolding step click save_request
  step-Permitted s (clicked (click_row button pending target confirmed)) =
      row-Permitted s button pending target confirmed
  step-Permitted s e = ground arith

  -- What a user that is created must have, and one that is saved.
  abbrev pub Savable : State → Effect → Type 0
  Savable s (create_user p) =
      ((s.editing_user_id ≡ none) ⊎ (s.editing_user_id ≡ some 0))
      × (1 ≤ length p.username)
      × (length p.username ≤ 12)
      × (length p.display_name ≤ 20)
      × (8 ≤ length p.password)
      × (length p.password ≤ 20)
  Savable s (update_user id p) =
      (s.editing_user_id ≡ some id)
      × (0 < id)
      × (1 ≤ length p.username)
      × (length p.username ≤ 12)
      × (length p.display_name ≤ 20)
      × ((p.password ≡ []) ⊎ ((8 ≤ length p.password) × (length p.password ≤ 20)))
  Savable s _ = Unit

  -- The bounds of the schema on what is sent.
  payload_bounds :
      (values : UserFormValues)
      → user_schema values ≡ true
      → let p = to_payload values in
        (1 ≤ length p.username)
        × (length p.username ≤ 12)
        × (length p.display_name ≤ 20)
        × (length p.password ≤ 20)
        × ((length p.password ≡ 0) ⊎ (8 ≤ length p.password))
  unfolding user_schema to_payload
  payload_bounds values valid =
      let name : trim values.username ≡ values.username = (list_beq_iff _ _).0 (ground arith) in
      let shown : trim values.display_name ≡ values.display_name =
        (list_beq_iff _ _).0 (ground arith) in
      rw (name, shown) (ground arith)

  save_at-Savable :
      (s : State) (values : UserFormValues) (editing : Option ℕ)
      → edited_user s.editing_user_id ≡ editing
      → user_schema values ≡ true
      → Savable s (save_request s.editing_user_id values)
  save_at-Savable s values none e valid = elim (Bool-cases (is_empty values.password)) [
    | inl empty ↦ rw (save_request-rejected _ values e empty) tt
    | inr entered ↦
        let bounds = payload_bounds values valid in
        let filled = password_entered values entered in
        rw (save_request-created _ values e entered)
          (edited_user-none _ e, bounds.0, bounds.1, bounds.2, ground arith, bounds.3)
  ]
  save_at-Savable s values (some id) e valid =
      let bounds = payload_bounds values valid in
      let empty = password_empty values in
      let (same, positive) = edited_user-some _ id e in
      rw (save_request-updated _ values id e)
        (same, positive, bounds.0, bounds.1, bounds.2, ground arith)

  submit_at-Savable :
      (s : State) (pending : Bool) (passed : Option UserFormValues)
      → resolver s.form ≡ passed
      → ((w : UserFormValues) → passed ≡ some w → user_schema w ≡ true)
      → All (Savable s) (step resolver role s (clicked (submit pending))).1
  unfolding step click
  submit_at-Savable s pending none e valid = ground arith
  submit_at-Savable s pending (some w) e valid =
      let savable = save_at-Savable s w (edited_user s.editing_user_id) refl (valid w refl) in
      elim (Bool-cases (is_admin role)) [
        | inr visitor ↦ rw visitor tt
        | inl admin ↦ elim (Bool-cases (not s.is_editor_open || pending)) [
          | inl stop ↦ rw (admin, stop) tt
          | inr go ↦ rw (admin, go, e) (savable, tt)
        ]
      ]

  row-Savable :
      (s : State) (button : RowButton) (pending : Bool) (target : UserItem) (confirmed : Bool)
      → All
          (Savable s)
          (step resolver role s (clicked (click_row button pending target confirmed))).1
  unfolding step click handle_manage
  row-Savable s button pending target confirmed = ground arith

  -- If the form library passes on only values that meet the schema, a user is created only with a
  -- name of 1 to 12 units, a display name of at most 20 and a password of 8 to 20, and while no id of
  -- a user above 0 is being edited; and only the user whose id is being edited, above 0, is updated,
  -- with the same bounds, but that its password may be empty.
  pub step-Savable :
      (s : State) (e : Event)
      → ((v w : UserFormValues) → resolver v ≡ some w → user_schema w ≡ true)
      → All (Savable s) (step resolver role s e).1
  unfolding step click
  step-Savable s (clicked (submit pending)) passes =
      submit_at-Savable s pending (resolver s.form) refl (λ w. passes s.form w)
  step-Savable s (clicked (click_row button pending target confirmed)) passes =
      row-Savable s button pending target confirmed
  step-Savable s e passes = ground arith
