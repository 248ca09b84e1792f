-- ===== src/Capability.antt =====
-- What the kernel supports: server/web/features/capability/types.ts.
use poolx.Common.{Bool, List, String}

pub record KernelCapability : Type 0 where
  pub kernel_type : String
  pub binary_configured : Bool
  pub binary_exists : Bool
  pub supports_start : Bool
  pub supports_stop : Bool
  pub supports_reload : Bool
  pub supports_templates : Bool
  pub supports_node_tags : Bool
  pub supports_auto_refresh : Bool
  pub supports_node_test_cache : Bool
  pub supports_node_test_batch : Bool
  pub supported_strategies : List String
  pub runtime_controller_type : String
  pub message : String
