-- ===== src/Nodes.antt =====
-- Proxy nodes: server/web/features/nodes. The records of types.ts; the children model the rest.
pub mod Region
pub mod Tags
pub mod Request
pub mod Page
pub mod Card
use poolx.Common.{ℕ, String, Bool, Option, ◌≡◌}
use poolx.Common.Text.{Text}

pub record ProxyNodeItem : Type 0 where
  pub id : ℕ
  pub source_config_id : ℕ
  pub source_config_name : Text
  pub name : Text
  pub type : Text
  pub server : Text
  pub port : ℕ
  pub tags : Text
  pub metadata_json : String
  pub enabled : Bool
  pub last_test_status : String
  pub last_latency_ms : Option ℕ
  pub last_test_error : Option String
  pub last_tested_at : Option String
  pub created_at : String
  pub updated_at : String

pub record NodeTestExecution : Type 0 where
  pub node_id : ℕ
  pub node_name : String
  pub status : String
  pub latency_ms : Option ℕ
  pub error_message : Option String
  pub test_url : Option String
  pub dial_address : String
  pub cached : Bool
  pub started_at : String
  pub finished_at : String
  pub last_tested_at : Option String
