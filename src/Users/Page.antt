-- ===== src/Users/Page.antt =====
-- components/users-page.tsx: the state of the page and its handlers. `role` is the role of the
-- signed-in user, 0 for none; `pending` says that the mutation behind a button runs, `confirmed` is
-- the answer to `window.confirm`. `resolver` is what `zodResolver` makes of `userSchema`: the values
-- that it passes on to the handler of a submit, none where it reports errors.
pub mod Laws
use Prim.Native.String.{◌++◌ as str_append}
use poolx.Common.{
  ℕ, ◌+◌, ◌-◌, Bool, true, false, not, ◌&&◌, ◌||◌, List, [], ◌∷◌, Option, none, some, String,
  length, leb, ltb, if◌then◌else◌, is_empty, ◌==◌, nat_eq,
}
use poolx.Common.Text.{Text, trim}
use poolx.Ui.{FeedbackState, success, danger, Thrown, an_error, message_of}
use poolx.Users.{
  UserItem, UserMutationPayload, ManageUserAction, promote, demote, delete, disable, enable,
}
use poolx.Users.Form.{UserFormValues, default_values, to_payload}

pub record State : Type 0 where
  pub page : ℕ
  pub search_input : Text
  pub search_keyword : Text
  pub editing_user_id : Option ℕ
  pub is_editor_open : Bool
  pub feedback : Option FeedbackState
  pub form : UserFormValues

abbrev pub initial : State
initial = record {
  page = 0;
  search_input = [];
  search_keyword = [];
  editing_user_id = none;
  is_editor_open = false;
  feedback = none;
  form = default_values;
}

-- The requests; `reject_save` is a save that throws before its request.
pub data Effect : Type 0 where
  create_user : UserMutationPayload → Effect
  update_user : ℕ → UserMutationPayload → Effect
  reject_save : Thrown → Effect
  manage_user : Text → ManageUserAction → Effect
  invalidate_list invalidate_detail : Effect

-- The three buttons of a row that manage its user.
pub data RowButton : Type 0 where
  status_button role_button delete_button : RowButton

-- What a user of the page may click or enter.
pub data Click : Type 0 where
  create refresh search_submit reset_search reset_form : Click
  set_search_input : Text → Click
  set_form : UserFormValues → Click
  previous_page : (loading : Bool) → Click
  next_page : (loading : Bool) → List UserItem → Click
  click_edit : UserItem → Click
  click_row : RowButton → (pending : Bool) → UserItem → (confirmed : Bool) → Click
  submit : (pending : Bool) → Click

-- What happens to the page: a click, the data of the detail query, and the end of a mutation.
pub data Event : Type 0 where
  clicked : Click → Event
  detail_changed : UserItem → Event
  saved : String → Event
  managed : ManageUserAction → Event
  failed : Thrown → Event

-- `isAdmin`, `isRoot` and `canManage`.
unfoldable pub is_admin : ℕ → Bool
is_admin role = leb 10 role

unfoldable pub is_root : ℕ → Bool
is_root role = leb 100 role

unfoldable pub can_manage : ℕ → UserItem → Bool
can_manage role target = ltb target.role role

-- The action of a button, and whether the button is disabled.
unfoldable pub action_of : RowButton → UserItem → ManageUserAction
action_of status_button target = if target.status == 1 then disable else enable
action_of role_button target = if leb 10 target.role then demote else promote
action_of delete_button target = delete

unfoldable pub row_disabled : ℕ → RowButton → Bool → UserItem → Bool
row_disabled role role_button pending target =
    not (can_manage role target) || pending || (not (is_root role) && ltb target.role 10)
row_disabled role _ pending target = not (can_manage role target) || pending

-- Whether `handleManage` asks before this action.
unfoldable pub asks : ManageUserAction → Bool
asks promote = false
asks demote = false
asks delete = true
asks disable = true
asks enable = true

-- `handleManage`.
unfoldable pub handle_manage : UserItem → ManageUserAction → Bool → State → State × List Effect
handle_manage target action confirmed s =
    if asks action && not confirmed
    then (s, [])
    else (record s { feedback = none }, manage_user target.username action ∷ [])

-- `editingUserId` where it is truthy.
unfoldable pub edited_user : Option ℕ → Option ℕ
edited_user none = none
edited_user (some id) = if id == 0 then none else some id

-- `saveMutation.mutationFn`.
unfoldable pub save_request : Option ℕ → UserFormValues → Effect
save_request editing values = elim (edited_user editing) [
  | none ↦
      if is_empty values.password
      then reject_save (an_error "创建用户时必须填写密码。")
      else create_user (to_payload values)
  | some id ↦ update_user id (to_payload values)
]

abbrev said : String → State → State
said text s = record s { feedback = some (record { tone = success; message = text }) }

abbrev action_label : ManageUserAction → String
action_label promote = "提升权限"
action_label demote = "降级权限"
action_label delete = "删除用户"
action_label disable = "禁用用户"
action_label enable = "启用用户"

abbrev closed : State → State
closed s = record s { editing_user_id = none; is_editor_open = false; form = default_values }

module _ (resolver : UserFormValues → Option UserFormValues) (role : ℕ) where
  unfoldable pub click : State → Click → State × List Effect
  click s create = (
    record s {
      editing_user_id = none;
      feedback = none;
      form = default_values;
      is_editor_open = true;
    },
    [],
  )
  click s refresh = (s, invalidate_list ∷ [])
  click s search_submit =
      (record s { feedback = none; page = 0; search_keyword = trim s.search_input }, [])
  click s reset_search =
      (record s { search_input = []; search_keyword = []; page = 0; feedback = none }, [])
  click s reset_form = (record (closed s) { feedback = none }, [])
  click s (set_search_input t) = (record s { search_input = t }, [])
  click s (set_form values) = if s.is_editor_open then (record s { form = values }, []) else (s, [])
  click s (previous_page loading) =
      if not (is_empty s.search_keyword) || s.page == 0 || loading
      then (s, [])
      else (record s { page = s.page - 1 }, [])
  click s (next_page loading users) =
      if not (is_empty s.search_keyword) || loading || ltb (length users) 10
      then (s, [])
      else (record s { page = s.page + 1 }, [])
  click s (click_edit target) = if not (can_manage role target) then (s, []) else (
    record s { feedback = none; editing_user_id = some target.id; is_editor_open = true },
    [],
  )
  click s (click_row button pending target confirmed) =
      if row_disabled role button pending target
      then (s, [])
      else handle_manage target (action_of button target) confirmed s
  click s (submit pending) =
      if not s.is_editor_open || pending then (s, []) else elim (resolver s.form) [
        | none ↦ (s, [])
        | some values ↦ (record s { feedback = none }, save_request s.editing_user_id values ∷ [])
      ]

  -- The page of a user without the role of an administrator has no controls.
  unfoldable pub step : State → Event → State × List Effect
  step s (clicked c) = if is_admin role then click s c else (s, [])
  step s (detail_changed user) = (
    record s {
      form = record { username = user.username; display_name = user.display_name; password = [] };
    },
    [],
  )
  step s (saved message) = (said message (closed s), invalidate_list ∷ invalidate_detail ∷ [])
  step s (managed action) =
      (said (str_append (action_label action) "操作已完成。") s, invalidate_list ∷ invalidate_detail ∷ [])
  step s (failed thrown) = (
    record s {
      feedback = some (record { tone = danger; message = message_of "请求失败，请稍后重试。" thrown });
    },
    [],
  )
