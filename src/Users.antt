-- ===== src/Users.antt =====
-- The user administration: server/web/features/users, with the records of types.ts.
pub mod Form
pub mod Page
pub mod Screen
use poolx.Common.{ℕ, Option, String}
use poolx.Common.Text.{Text}

pub record UserItem : Type 0 where
  pub id : ℕ
  pub username : Text
  pub display_name : Text
  pub role : ℕ
  pub status : ℕ
  pub email : Option String
  pub github_id : Option String
  pub wechat_id : Option String

-- `UserMutationPayload`, but for its optional `id`.
pub record UserMutationPayload : Type 0 where
  pub username : Text
  pub display_name : Text
  pub password : Text

pub data ManageUserAction : Type 0 where
  promote demote delete disable enable : ManageUserAction
