-- ===== src/Dashboard/Screen.antt =====
-- What the overview shows of its statistics, of the kernel and of the port profiles. `format_date` is
-- `formatDateTime`.
use poolx.Common.{
  ℕ, zero, suc, Bool, false, not, List, Option, none, some, String, length, filter, map,
  if◌then◌else◌, ltb, str_eq, or_else,
}
use poolx.Common.Int.{ℤ, pos, negsuc}
use poolx.Common.Text.{Text}
use poolx.Capability.{KernelCapability}
use poolx.Nodes.Region.Labels.{RegionLabel}
use poolx.Runtime.{RuntimeStatus}
use poolx.Workspace.{PortProfileStrategy, PortProfileRecord, PortProfileWithNodes}
use poolx.Dashboard.{Stats, share}

-- `text || fallback`.
abbrev text_or : String → String → String
text_or text fallback = if str_eq text "" then fallback else text

abbrev text_or_none : Option String → Option String
text_or_none none = none
text_or_none (some text) = if str_eq text "" then none else some text

-- The line below the health: how many have failed, or "全部节点连通正常".
pub data HealthNote : Type 0 where
  some_failed : ℕ → HealthNote
  all_connected : HealthNote

unfoldable pub health_note : Stats → HealthNote
health_note s = if ltb 0 s.failed_nodes then some_failed s.failed_nodes else all_connected

-- The line below the average latency: "网络连接极其畅通", "网络质量良好", "延迟偏高" or "暂无成功测速数据".
pub data LatencyNote : Type 0 where
  smooth good high no_data : LatencyNote

unfoldable pub latency_note : Stats → LatencyNote
latency_note s = elim s.avg_latency [
  | none ↦ no_data
  | some ms ↦ if ltb ms 200 then smooth else (if ltb ms 500 then good else high)
]

-- The number of listeners, and the profiles that are in the runtime.
unfoldable pub listener_counts : Option RuntimeStatus → List PortProfileWithNodes → ℕ × ℕ
listener_counts status profiles = (
  elim status [ none ↦ length profiles | some s ↦ s.listener_count ],
  length (filter (λ p. p.profile.include_in_runtime) profiles),
)

-- The panel of the kernel.
pub record InstancePanel : Type 0 where
  pub running : Bool
  pub pid : Option ℕ
  pub address : String
  pub api_version : String
  pub last_action : String
  pub started_at : String
  pub last_error : Option String

unfoldable pub instance_panel : (String → String) → Option RuntimeStatus → InstancePanel
instance_panel format_date none = record {
  running = false;
  pid = none;
  address = "127.0.0.1:19090";
  api_version = "未就绪";
  last_action = "无";
  started_at = "--";
  last_error = none;
}
instance_panel format_date (some s) = record {
  running = s.running;
  pid = s.instance_item.pid;
  address = text_or s.instance_item.controller_address "127.0.0.1:19090";
  api_version = text_or (or_else s.api_version "") "未就绪";
  last_action = text_or s.instance_item.last_action "无";
  started_at = elim (text_or_none s.instance_item.last_started_at) [
    | none ↦ "--"
    | some at ↦ format_date at
  ];
  last_error = text_or_none (some s.instance_item.last_error);
}

-- The message of the kernel, where its binary is missing.
unfoldable pub capability_message : Option KernelCapability → Option String
capability_message none = none
capability_message (some c) = if not c.binary_exists then some c.message else none

-- A bar of the distribution: the region, its nodes and their percentage, which is its width.
pub record RegionBar : Type 0 where
  pub region : RegionLabel
  pub count : ℕ
  pub width : ℕ

unfoldable pub region_bars : (ℕ → ℕ → ℕ) → Stats → List RegionBar
region_bars percent s =
    map
      (λ group. record {
        region = group.region;
        count = length group.nodes;
        width = share percent s group;
      })
      s.region_groups

-- The ports of a profile: one for both protocols, or one for each.
pub data Ports : Type 0 where
  mixed : ℤ → Ports
  socks_http : ℤ → ℤ → Ports

abbrev pub ports_of : PortProfileRecord → Ports
ports_of profile = elim profile.mixed_port [
  | pos zero ↦ socks_http profile.socks_port profile.http_port
  | pos (suc n) ↦ mixed (pos (suc n))
  | negsuc n ↦ mixed (negsuc n)
]

pub record ProfileCard : Type 0 where
  pub name : Text
  pub mounted : Bool
  pub ports : Ports
  pub strategy : Option PortProfileStrategy
  pub node_count : ℕ
  pub link_id : ℕ

-- None where the settings are missing, whose field is read.
unfoldable pub profile_card : PortProfileWithNodes → Option ProfileCard
profile_card p = elim p.profile.proxy_settings [
  | none ↦ none
  | some settings ↦ some (record {
    name = p.profile.name;
    mounted = p.profile.include_in_runtime;
    ports = ports_of p.profile;
    strategy = settings.strategy_type;
    node_count = length p.node_ids;
    link_id = p.profile.id;
  })
]
