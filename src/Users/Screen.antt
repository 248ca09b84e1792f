-- ===== src/Users/Screen.antt =====
-- components/users-page.tsx: what is on the screen, but for its fixed texts. `View` is what the
-- queries and the mutations tell: of the list that is active, and of the user that is edited.
pub mod Laws
use poolx.Common.{
  ℕ, Bool, true, false, not, ◌||◌, List, [], Option, none, some, String, length, map, if◌then◌else◌,
  is_empty, is_some, leb, ltb, str_eq, ◌==◌, nat_eq,
}
use poolx.Common.Text.{Text}
use poolx.Ui.{FeedbackState}
use poolx.Users.{UserItem, ManageUserAction, promote, demote, delete, disable, enable}
use poolx.Users.Form.{BadgeMeta, get_role_meta, get_status_meta}
use poolx.Users.Page.{
  State, RowButton, status_button, role_button, delete_button, can_manage, edited_user, is_admin,
  row_disabled,
}

pub record View : Type 0 where
  pub list_loading : Bool
  pub list_error : Bool
  pub users : List UserItem
  pub detail_loading : Bool
  pub detail_error : Bool
  pub detail : Option UserItem
  pub manage_pending : Bool
  pub save_pending : Bool

pub record Button : Type 0 where
  pub label : String
  pub enabled : Bool

-- `actionText` of `handleManage`.
unfoldable pub action_text : ManageUserAction → String
action_text promote = "提升"
action_text demote = "降级"
action_text delete = "删除"
action_text disable = "禁用"
action_text enable = "启用"

-- The label of a button of a row.
unfoldable pub button_label : RowButton → UserItem → String
button_label status_button target = if target.status == 1 then "禁用" else "启用"
button_label role_button target = if leb 10 target.role then "降级" else "提升"
button_label delete_button target = "删除"

-- `text || fallback`; a text may be missing.
abbrev text_or : Option String → String → String
text_or none fallback = fallback
text_or (some text) fallback = if str_eq text "" then fallback else text

pub record Row : Type 0 where
  pub user : UserItem
  -- None is shown as "未设置".
  pub display_name : Option Text
  pub email : String
  pub role_badge : BadgeMeta
  pub status_badge : BadgeMeta
  pub edit_enabled : Bool
  pub status_action : Button
  pub role_action : Button
  pub delete_action : Button

module _ (role : ℕ) where
  abbrev row_action : Bool → UserItem → RowButton → Button
  row_action pending target b = record {
    label = button_label b target;
    enabled = not (row_disabled role b pending target);
  }

  unfoldable pub row_of : (pending : Bool) → UserItem → Row
  row_of pending target = record {
    user = target;
    display_name = if is_empty target.display_name then none else some target.display_name;
    email = text_or target.email "未绑定";
    role_badge = get_role_meta target.role;
    status_badge = get_status_meta target.status;
    edit_enabled = can_manage role target;
    status_action = row_action pending target status_button;
    role_action = row_action pending target role_button;
    delete_action = row_action pending target delete_button;
  }

-- The two buttons that turn the page, which a search does not have.
pub record Pager : Type 0 where
  pub previous_enabled : Bool
  pub next_enabled : Bool

unfoldable pub pager : View → State → Option Pager
pager v s =
    if not (length s.search_keyword == 0)
    then none
    else some (record {
      previous_enabled = not (s.page == 0 || v.list_loading);
      next_enabled = not (v.list_loading || ltb (length v.users) 10);
    })

pub data Table : Type 0 where
  list_loading list_failed no_users : Table
  rows : List Row → Table

unfoldable pub table : ℕ → View → Table
table role v =
    if v.list_loading
    then list_loading
    else if v.list_error
    then list_failed
    else if length v.users == 0
    then no_users
    else rows (map (row_of role v.manage_pending) v.users)

-- The dialog: what it says, and its body, with the bindings of the user that is edited.
pub record Bindings : Type 0 where
  pub email : String
  pub github : String
  pub wechat : String

abbrev bindings_of : UserItem → Bindings
bindings_of user = record {
  email = text_or user.email "未绑定";
  github = text_or user.github_id "未绑定";
  wechat = text_or user.wechat_id "未绑定";
}

pub data EditorBody : Type 0 where
  detail_loading detail_failed : EditorBody
  form_shown : (password_hint : String) → Option Bindings → EditorBody

pub record Editor : Type 0 where
  pub title : String
  pub cancel_enabled : Bool
  pub submit : Button
  pub body : EditorBody

unfoldable pub editor : View → State → Editor
editor v s =
    let editing = is_some (edited_user s.editing_user_id) in
    let edit : EditorBody =
      if v.detail_loading
      then detail_loading
      else if v.detail_error
      then detail_failed
      else form_shown "留空表示保持原密码不变。"
          (elim v.detail [ none ↦ none | some user ↦ some (bindings_of user) ]) in
    record {
      title = if editing then "编辑用户" else "创建新用户";
      cancel_enabled = not v.save_pending;
      submit = record {
        label = if v.save_pending then "保存中..." else (if editing then "保存修改" else "创建用户");
        enabled = not v.save_pending;
      };
      body = if editing then edit else form_shown "密码长度需为 8 到 20 个字符。" none;
    }

pub record Panel : Type 0 where
  pub feedback : Option FeedbackState
  pub turning : Option Pager
  pub listed : Table
  pub editing : Option Editor

pub data Screen : Type 0 where
  denied : Screen
  shown : Panel → Screen

unfoldable pub screen : ℕ → View → State → Screen
screen role v s =
    if not (is_admin role)
    then denied
    else shown (record {
      feedback = s.feedback;
      turning = pager v s;
      listed = table role v;
      editing = if s.is_editor_open then some (editor v s) else none;
    })
