-- ===== src/Logs.antt =====
-- The log page: server/web/features/logs.
pub mod Display
pub mod Merge
pub mod Page
use poolx.Common.{ℕ}
use poolx.Common.Text.{Text}

-- `AppLogItem` of types.ts.
pub record AppLogItem : Type 0 where
  pub id : ℕ
  pub classification : Text
  pub level : Text
  pub message : Text
  pub created_at : Text
