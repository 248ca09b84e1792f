-- ===== src/Auth.antt =====
-- Signed-in users: server/web/types/auth.ts, server/web/features/auth and
-- server/web/components/providers/auth-provider.tsx.
pub mod Provider
pub mod Guards
pub mod Forms
use poolx.Common.{ℕ, Option}
use poolx.Common.Text.{Text}

pub record AuthUser : Type 0 where
  pub id : ℕ
  pub username : Text
  pub display_name : Text
  pub role : ℕ
  pub status : ℕ
  pub email : Option Text
  pub github_id : Option Text
  pub wechat_id : Option Text

pub record LoginPayload : Type 0 where
  pub username : Text
  pub password : Text

pub record RegisterPayload : Type 0 where
  pub username : Text
  pub password : Text
  pub email : Option Text
  pub verification_code : Option Text

pub record PasswordResetRequestPayload : Type 0 where
  pub email : Text
  pub token : Text
