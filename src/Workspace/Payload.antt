-- ===== src/Workspace/Payload.antt =====
-- The form of a port profile: its defaults, what is sent of it, and its edits
-- (components/workspace-page.tsx).
pub mod Laws
use poolx.Common.{
  ℕ, Bool, true, false, List, [], Option, none, some, if◌then◌else◌, or_else, nat_eq,
}
use poolx.Common.Int.{ℤ, pos, or_zero, is_positive, parse_or_zero}
use poolx.Common.Text.{Text, units, trim}
use poolx.Common.Unique.{toggle}
use poolx.Workspace.{
  PortProfileStrategy, choose, LoadBalanceStrategy, consistent_hashing, PortProfileProxySettings,
  PartialSettings, PortProfileWithNodes, PortProfilePayload, PortProfileTemplateItem,
}

-- `defaultProxySettings`.
abbrev pub default_proxy_settings : PortProfileProxySettings
default_proxy_settings = record {
  strategy_type = choose;
  test_url = units "https://cp.cloudflare.com/generate_204";
  test_interval_seconds = pos 300;
  load_balance_strategy = consistent_hashing;
  load_balance_lazy = false;
  load_balance_disable_udp = false;
  udp_enabled = true;
  auth_enabled = false;
  auth_username = [];
  auth_password = [];
}

-- `defaultPayload`.
abbrev pub default_payload : PortProfilePayload
default_payload = record {
  name = [];
  listen_host = units "127.0.0.1";
  mixed_port = pos 7890;
  socks_port = pos 0;
  http_port = pos 0;
  proxy_settings = default_proxy_settings;
  include_in_runtime = true;
  node_ids = [];
}

-- `toPayload`.
unfoldable pub to_payload : PortProfilePayload → PortProfilePayload
to_payload state =
    let settings = state.proxy_settings in
    record state {
      name = trim state.name;
      listen_host = trim state.listen_host;
      proxy_settings = record settings {
        test_url = trim settings.test_url;
        auth_username = trim settings.auth_username;
        auth_password = trim settings.auth_password;
      };
    }

-- `value?.field`.
abbrev optional : {A : Type 0} → (PartialSettings → Option A) → Option PartialSettings → Option A
optional field none = none
optional field (some value) = field value

-- `normalizeProxySettings`.
unfoldable pub normalize_proxy_settings : Option PartialSettings → PortProfileProxySettings
normalize_proxy_settings value = record {
  strategy_type = or_else (optional (λ v. v.strategy_type) value) choose;
  test_url =
      or_else (optional (λ v. v.test_url) value) (units "https://cp.cloudflare.com/generate_204");
  test_interval_seconds = or_else (optional (λ v. v.test_interval_seconds) value) (pos 300);
  load_balance_strategy =
      or_else (optional (λ v. v.load_balance_strategy) value) consistent_hashing;
  load_balance_lazy = or_else (optional (λ v. v.load_balance_lazy) value) false;
  load_balance_disable_udp = or_else (optional (λ v. v.load_balance_disable_udp) value) false;
  udp_enabled = or_else (optional (λ v. v.udp_enabled) value) true;
  auth_enabled = or_else (optional (λ v. v.auth_enabled) value) false;
  auth_username = or_else (optional (λ v. v.auth_username) value) [];
  auth_password = or_else (optional (λ v. v.auth_password) value) [];
}

-- `toProfilePayload`; the effect on `detailQuery.data` sets the form to the same.
unfoldable pub to_profile_payload : PortProfileWithNodes → PortProfilePayload
to_profile_payload item = record {
  name = item.profile.name;
  listen_host = item.profile.listen_host;
  mixed_port = item.profile.mixed_port;
  socks_port = item.profile.socks_port;
  http_port = item.profile.http_port;
  proxy_settings = normalize_proxy_settings item.profile.proxy_settings;
  include_in_runtime = item.profile.include_in_runtime;
  node_ids = item.node_ids;
}

-- The form that `applyTemplate` sets.
unfoldable pub template_payload : PortProfileTemplateItem → PortProfilePayload
template_payload item = record {
  name = item.template.name;
  listen_host = item.template.listen_host;
  mixed_port = item.template.mixed_port;
  socks_port = item.template.socks_port;
  http_port = item.template.http_port;
  proxy_settings = normalize_proxy_settings item.template.proxy_settings;
  include_in_runtime = item.template.include_in_runtime;
  node_ids = item.node_ids;
}

-- `usesMixedPort`.
abbrev pub uses_mixed_port : PortProfilePayload → Bool
uses_mixed_port p = is_positive p.mixed_port

-- The inputs of the form.
pub data Edit : Type 0 where
  set_name set_listen_host set_test_url set_interval : Text → Edit
  set_mixed_port set_socks_port set_http_port : Text → Edit
  switch_mixed : Bool → Edit
  set_strategy : PortProfileStrategy → Edit
  set_balance_strategy : LoadBalanceStrategy → Edit
  switch_lazy switch_balance_udp switch_udp switch_auth : Bool → Edit
  set_username set_password : Text → Edit
  toggle_node : ℕ → Bool → Edit

abbrev is_load_balance : PortProfileStrategy → Bool
is_load_balance PortProfileStrategy.load_balance = true
is_load_balance _ = false

-- What an input does to the form. An input that is not shown does nothing: the mixed port and the
-- two others exclude one another, those of load balancing show under that strategy only, and the
-- credentials only where authentication is on.
unfoldable pub edit : Edit → PortProfilePayload → PortProfilePayload
edit (set_name t) p = record p { name = t }
edit (set_listen_host t) p = record p { listen_host = t }
edit (switch_mixed checked) p = record p {
  mixed_port = if checked then or_zero p.mixed_port (pos 7890) else pos 0;
  socks_port = if checked then pos 0 else or_zero p.socks_port (pos 7891);
  http_port = if checked then pos 0 else or_zero p.http_port (pos 7892);
}
edit (set_mixed_port t) p =
    if uses_mixed_port p then record p { mixed_port = parse_or_zero t } else p
edit (set_socks_port t) p =
    if uses_mixed_port p then p else record p { socks_port = parse_or_zero t }
edit (set_http_port t) p = if uses_mixed_port p then p else record p { http_port = parse_or_zero t }
edit (set_strategy x) p =
    let s = p.proxy_settings in record p { proxy_settings = record s { strategy_type = x } }
edit (set_test_url t) p =
    let s = p.proxy_settings in record p { proxy_settings = record s { test_url = t } }
edit (set_interval t) p =
    let s = p.proxy_settings in
    record p { proxy_settings = record s { test_interval_seconds = parse_or_zero t } }
edit (set_balance_strategy x) p =
    let s = p.proxy_settings in
    if is_load_balance s.strategy_type
    then record p { proxy_settings = record s { load_balance_strategy = x } }
    else p
edit (switch_lazy b) p =
    let s = p.proxy_settings in
    if is_load_balance s.strategy_type
    then record p { proxy_settings = record s { load_balance_lazy = b } }
    else p
edit (switch_balance_udp b) p =
    let s = p.proxy_settings in
    if is_load_balance s.strategy_type
    then record p { proxy_settings = record s { load_balance_disable_udp = b } }
    else p
edit (switch_udp b) p =
    let s = p.proxy_settings in record p { proxy_settings = record s { udp_enabled = b } }
edit (switch_auth checked) p =
    let s = p.proxy_settings in
    record p {
      proxy_settings = record s {
        auth_enabled = checked;
        auth_username = if checked then s.auth_username else [];
        auth_password = if checked then s.auth_password else [];
      };
    }
edit (set_username t) p =
    let s = p.proxy_settings in
    if s.auth_enabled then record p { proxy_settings = record s { auth_username = t } } else p
edit (set_password t) p =
    let s = p.proxy_settings in
    if s.auth_enabled then record p { proxy_settings = record s { auth_password = t } } else p
edit (toggle_node id checked) p = record p { node_ids = toggle p.node_ids id checked }
