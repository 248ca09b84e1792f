-- ===== src/Nodes/Card.antt =====
-- components/nodes-page.tsx: the card of a node with its badges, and the list of the cards. `lower`
-- is `toLowerCase`, `format_date` is `formatDateTime`.
pub mod Laws
use poolx.Common.{
  ℕ, ◌+◌, Bool, true, false, not, ◌&&◌, ◌||◌, List, [], ◌∷◌, ◌++◌, Option, none, some, String, map,
  length, ltb, if◌then◌else◌, is_empty, or_else, is_some, str_eq, ◌==◌, nat_eq,
}
use poolx.Common.Text.{Text, units, includes}
use poolx.Common.Unique.{contains}
use poolx.Ui.{Thrown, message_of}
use poolx.Nodes.{ProxyNodeItem}
use poolx.Nodes.Tags.{parse_tags}
use poolx.Nodes.Region.Labels.{RegionLabel}
use poolx.Nodes.Region.Grouping.{RegionGroup, group_nodes_by_region}

-- The colours of the badges.
pub data BadgeStyle : Type 0 where
  indigo cyan sky amber fuchsia teal orange emerald muted : BadgeStyle

unfoldable pub get_protocol_badge_style : (Text → Text) → Text → BadgeStyle
get_protocol_badge_style lower type =
    let t = lower type in
    if includes t (units "ss") || includes t (units "shadowsocks")
    then indigo
    else if includes t (units "vmess")
    then cyan
    else if includes t (units "vless")
    then sky
    else if includes t (units "trojan")
    then amber
    else if includes t (units "hy") || includes t (units "hysteria") || includes t (units "tuic")
    then fuchsia
    else if includes t (units "wireguard") || includes t (units "wg")
    then teal
    else muted

-- The badge of the last test: a latency in milliseconds, a failure with its title, or no test.
pub data LatencyBadge : Type 0 where
  measured : ℕ → BadgeStyle → LatencyBadge
  failed : (title : String) → LatencyBadge
  untested : LatencyBadge

-- `text || fallback`, for a text that may be missing.
abbrev pub text_or : Option String → String → String
text_or none fallback = fallback
text_or (some text) fallback = if str_eq text "" then fallback else text

abbrev measured_badge : ℕ → LatencyBadge
measured_badge ms =
    measured ms (if ltb 400 ms then orange else (if ltb 150 ms then amber else emerald))

unfoldable pub render_latency_badge : ProxyNodeItem → LatencyBadge
render_latency_badge node =
    if str_eq node.last_test_status "success"
    then measured_badge (or_else node.last_latency_ms 0)
    else if str_eq node.last_test_status "failed"
    then failed (text_or node.last_test_error "测试连接超时或失败")
    else untested

pub record NodeCard : Type 0 where
  pub node : ProxyNodeItem
  pub is_selected : Bool
  pub is_testing : Bool
  pub is_deleting : Bool
  pub is_copied : Bool
  pub protocol_style : BadgeStyle
  pub badge : LatencyBadge
  pub tag_list : List Text
  pub error_details : Option String
  pub tested_at : String

-- What the cards depend on: the selection, the nodes of the test and the node of the deletion that
-- run, and the node whose address was copied.
pub record Marks : Type 0 where
  pub selected_ids : List ℕ
  pub testing : List ℕ
  pub deleting : Option ℕ
  pub copied_id : Option ℕ

abbrev is_id : Option ℕ → ℕ → Bool
is_id none id = false
is_id (some i) id = i == id

-- The text, unless it is missing or empty.
abbrev pub given_text : Option String → Option String
given_text none = none
given_text (some text) = if str_eq text "" then none else some text

-- What the list query gives, with its error where it has failed.
pub record NodesQuery : Type 0 where
  pub is_loading : Bool
  pub error : Option Thrown
  pub nodes : List ProxyNodeItem

pub data Cards : Type 0 where
  no_cards : Cards
  flat : List NodeCard → Cards
  grouped : List (RegionLabel × List NodeCard) → Cards

-- The list with its states, and the buttons below it.
pub record ListScreen : Type 0 where
  pub loading : Bool
  pub error : Option String
  pub empty : Bool
  pub cards : Cards
  pub page_number : ℕ
  pub shown_count : ℕ
  pub previous_disabled : Bool
  pub next_disabled : Bool

module _ (lower : Text → Text) (format_date : String → String) (marks : Marks) where
  unfoldable pub render_node_card : ProxyNodeItem → NodeCard
  render_node_card node = record {
    node = node;
    is_selected = contains marks.selected_ids node.id;
    is_testing = contains marks.testing node.id;
    is_deleting = is_id marks.deleting node.id;
    is_copied = is_id marks.copied_id node.id;
    protocol_style = get_protocol_badge_style lower node.type;
    badge = render_latency_badge node;
    tag_list = parse_tags node.tags;
    error_details =
        if str_eq node.last_test_status "failed" then given_text node.last_test_error else none;
    tested_at = elim (given_text node.last_tested_at) [ none ↦ "未执行" | some at ↦ format_date at ];
  }

  abbrev pub group_cards : RegionGroup → RegionLabel × List NodeCard
  group_cards group = (group.region, map render_node_card group.nodes)

  unfoldable pub list_screen :
      (group_by_region : Bool) → (page page_size : ℕ) → NodesQuery → ListScreen
  list_screen group_by_region page page_size query =
      let is_error = is_some query.error in
      let is_ready = not query.is_loading && not is_error in
      record {
        loading = query.is_loading;
        error = elim query.error [ none ↦ none | some e ↦ some (message_of "请求失败，请稍后重试。" e) ];
        empty = is_ready && is_empty query.nodes;
        cards =
            if is_ready && not (is_empty query.nodes)
            then (if group_by_region
                then grouped (map group_cards (group_nodes_by_region query.nodes))
                else flat (map render_node_card query.nodes))
            else no_cards;
        page_number = page + 1;
        shown_count = length query.nodes;
        previous_disabled = page == 0 || (query.is_loading || page_size == 0);
        next_disabled =
            query.is_loading
            || (is_empty query.nodes
                || (page_size == 0 || (ltb 0 page_size && ltb (length query.nodes) page_size)));
      }
