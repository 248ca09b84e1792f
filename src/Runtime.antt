-- ===== src/Runtime.antt =====
-- The runtime page: server/web/features/runtime, with the records of types.ts.
pub mod Merge
pub mod Page
pub mod Screen
use poolx.Common.{ℕ, Bool, List, Option, String}
use poolx.Common.Text.{Text}

pub record KernelInstanceItem : Type 0 where
  pub id : ℕ
  pub kernel_type : String
  pub status : String
  pub pid : Option ℕ
  pub work_dir : String
  pub config_path : String
  pub controller_address : String
  pub active_config_checksum : String
  pub active_profile_count : ℕ
  pub active_listener_count : ℕ
  pub last_action : String
  pub last_error : String
  pub last_started_at : Option String
  pub last_stopped_at : Option String
  pub last_reloaded_at : Option String
  pub created_at : String
  pub updated_at : String

pub record RuntimeListenerItem : Type 0 where
  pub profile_id : ℕ
  pub profile_name : String
  pub name : String
  pub type : String
  pub listen : String
  pub port : ℕ
  pub proxy_group_name : String

pub record RuntimeStatus : Type 0 where
  pub instance_item : KernelInstanceItem
  pub running : Bool
  pub api_healthy : Bool
  pub api_version : Option String
  pub profile_count : ℕ
  pub listener_count : ℕ
  pub listeners : List RuntimeListenerItem
  pub rendered_config_preview : Option String

pub record RuntimeLogItem : Type 0 where
  pub seq : ℕ
  pub stream : String
  pub level : Text
  pub message : String
  pub created_at : String
