-- ===== src/Workspace.antt =====
-- The workspace: server/web/features/workspace, with the records of types.ts.
pub mod Payload
pub mod Page
use poolx.Common.{ℕ, Bool, List, Option, String}
use poolx.Common.Int.{ℤ}
use poolx.Common.Text.{Text}

-- `PortProfileStrategy`.
pub data PortProfileStrategy : Type 0 where
  choose url_test fallback load_balance : PortProfileStrategy

pub data LoadBalanceStrategy : Type 0 where
  consistent_hashing round_robin : LoadBalanceStrategy

pub record PortProfileProxySettings : Type 0 where
  pub strategy_type : PortProfileStrategy
  pub test_url : Text
  pub test_interval_seconds : ℤ
  pub load_balance_strategy : LoadBalanceStrategy
  pub load_balance_lazy : Bool
  pub load_balance_disable_udp : Bool
  pub udp_enabled : Bool
  pub auth_enabled : Bool
  pub auth_username : Text
  pub auth_password : Text

-- `Partial<PortProfileProxySettings>`: what the server sends, where a setting may be missing.
pub record PartialSettings : Type 0 where
  pub strategy_type : Option PortProfileStrategy
  pub test_url : Option Text
  pub test_interval_seconds : Option ℤ
  pub load_balance_strategy : Option LoadBalanceStrategy
  pub load_balance_lazy : Option Bool
  pub load_balance_disable_udp : Option Bool
  pub udp_enabled : Option Bool
  pub auth_enabled : Option Bool
  pub auth_username : Option Text
  pub auth_password : Option Text

pub record RuntimeConfigItem : Type 0 where
  pub id : ℕ
  pub port_profile_id : ℕ
  pub kernel_type : String
  pub checksum : String
  pub rendered_config : String
  pub created_at : String
  pub updated_at : String

pub record ProxyNodeOption : Type 0 where
  pub id : ℕ
  pub name : String
  pub type : String
  pub server : String
  pub port : ℕ
  pub tags : String
  pub source_config_name : String
  pub enabled : Bool
  pub last_test_status : String

pub record PortProfileRecord : Type 0 where
  pub id : ℕ
  pub name : Text
  pub listen_host : Text
  pub mixed_port : ℤ
  pub socks_port : ℤ
  pub http_port : ℤ
  pub proxy_settings : Option PartialSettings
  pub include_in_runtime : Bool
  pub kernel_type : String
  pub created_at : String
  pub updated_at : String

pub record PortProfileWithNodes : Type 0 where
  pub profile : PortProfileRecord
  pub node_ids : List ℕ
  pub nodes : List ProxyNodeOption
  pub runtime : Option RuntimeConfigItem

pub record PortProfilePayload : Type 0 where
  pub name : Text
  pub listen_host : Text
  pub mixed_port : ℤ
  pub socks_port : ℤ
  pub http_port : ℤ
  pub proxy_settings : PortProfileProxySettings
  pub include_in_runtime : Bool
  pub node_ids : List ℕ

pub record PortProfilePreview : Type 0 where
  pub profile : PortProfileRecord
  pub node_ids : List ℕ
  pub nodes : List ProxyNodeOption
  pub kernel_type : String
  pub checksum : String
  pub content : String

pub record PortProfileTemplateRecord : Type 0 where
  pub id : ℕ
  pub name : Text
  pub listen_host : Text
  pub mixed_port : ℤ
  pub socks_port : ℤ
  pub http_port : ℤ
  pub proxy_settings : Option PartialSettings
  pub include_in_runtime : Bool
  pub created_at : String
  pub updated_at : String

pub record PortProfileTemplateItem : Type 0 where
  pub template : PortProfileTemplateRecord
  pub node_ids : List ℕ
