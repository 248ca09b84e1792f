-- ===== src/Users/Form.antt =====
-- The form of a user and the labels of the list, in components/users-page.tsx.
use poolx.Common.{
  ℕ, Bool, ◌&&◌, ◌||◌, [], String, length, leb, if◌then◌else◌, ◌==◌, list_eq, nat_eq,
}
use poolx.Common.Text.{Text, trim}
use poolx.Users.{UserMutationPayload}

-- `UserFormValues`.
pub record UserFormValues : Type 0 where
  pub username : Text
  pub display_name : Text
  pub password : Text

abbrev pub default_values : UserFormValues
default_values = record { username = []; display_name = []; password = [] }

-- `userSchema`, as a test on the values that it lets pass: the two names are trimmed then. Lengths
-- are counted in UTF-16 units.
unfoldable pub user_schema : UserFormValues → Bool
user_schema values =
    (trim values.username == values.username
      && leb 1 (length values.username)
      && leb (length values.username) 12)
    && (trim values.display_name == values.display_name && leb (length values.display_name) 20)
    && (leb (length values.password) 20
        && (length values.password == 0 || leb 8 (length values.password)))

-- `toPayload`.
unfoldable pub to_payload : UserFormValues → UserMutationPayload
to_payload values = record {
  username = trim values.username;
  display_name = trim values.display_name;
  password = values.password;
}

pub data Variant : Type 0 where
  warning info success danger : Variant

pub record BadgeMeta : Type 0 where
  pub label : String
  pub variant : Variant

-- `getRoleMeta` and `getStatusMeta`.
unfoldable pub get_role_meta : ℕ → BadgeMeta
get_role_meta role =
    if leb 100 role
    then record { label = "超级管理员"; variant = warning }
    else if leb 10 role
    then record { label = "管理员"; variant = info }
    else record { label = "普通用户"; variant = success }

unfoldable pub get_status_meta : ℕ → BadgeMeta
get_status_meta status =
    if status == 1
    then record { label = "已激活"; variant = success }
    else record { label = "已封禁"; variant = danger }
