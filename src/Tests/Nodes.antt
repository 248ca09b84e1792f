-- ===== src/Tests/Nodes.antt =====
-- The node page at concrete names, tags and events.
use poolx.Common.{
  ℕ, true, false, String, List, [], ◌∷◌, ◌++◌, some, none, inl, ◌≡◌, refl, arith, nat_eq, list_eq,
  All,
}
use mathlib.Core.List.{Perm}
use poolx.Common.Text.{Text, units, includes, starts_with}
use poolx.Common.Unique.{contains}
use poolx.Nodes.{ProxyNodeItem}
use poolx.Nodes.Region.Labels.{hong_kong, region_order}
use poolx.Nodes.Region.Flags.{lookup_flag}
use poolx.Nodes.Region.Detection.{detect_region}
use poolx.Nodes.Region.Detection.Laws.{encode_all, flag, detect_region-flag}
use poolx.Nodes.Region.Grouping.{group_nodes_by_region}
use poolx.Nodes.Region.Grouping.Laws.{groups_of, nodes_in, group_nodes_by_region-groups_of}
use poolx.Nodes.Card.{Marks, NodesQuery, indigo, get_protocol_badge_style, list_screen}
use poolx.Nodes.Card.Laws.{card_nodes, list_screen-perm}
use poolx.Nodes.Request.{latency_asc, only_enabled, ListParams}
use poolx.Nodes.Page.{
  node_deleted, State, initial, Event, toggle_selection, select_all, node_deleted, delete_selected,
  search, step, run,
}
use poolx.Nodes.Page.Laws.{Asked, step-Asked}
use poolx.Nodes.Page.Selection.{run-initial-select_run, select_run, select}

abbrev as_word : ℕ → String
as_word n = "n"

abbrev named : ℕ → Text → ProxyNodeItem
named n name = record {
  id = n;
  source_config_id = 1;
  source_config_name = units "a";
  name = name;
  type = units "ss";
  server = units "1.1.1.1";
  port = 443;
  tags = [];
  metadata_json = "";
  enabled = true;
  last_test_status = "";
  last_latency_ms = none;
  last_test_error = none;
  last_tested_at = none;
  created_at = "";
  updated_at = "";
}

abbrev nodes : List ProxyNodeItem
nodes = named 1 (units "Japan-01") ∷ named 2 (units "🇭🇰 HK") ∷ named 3 (units "日本") ∷ []

detect_region-flag_example :
    detect_region (encode_all (65 ∷ 32 ∷ []) ++ (flag 7 10 ++ units " Japan")) ≡ hong_kong
unfolding lookup_flag
detect_region-flag_example =
    detect_region-flag (65 ∷ 32 ∷ []) 7 10 (units " Japan") hong_kong
      (((omega arith, inl (omega arith)), refl), (((omega arith, inl (omega arith)), refl), tt))
      (omega arith) (omega arith) refl

group_nodes_by_region-groups_of_example :
    group_nodes_by_region nodes ≡ groups_of (nodes_in nodes) region_order
group_nodes_by_region-groups_of_example = group_nodes_by_region-groups_of nodes

abbrev params : ListParams
params = record {
  page = 2;
  keyword = some (units " hk ");
  enabled = some only_enabled;
  page_size = some 50;
  sort = some latency_asc;
}

abbrev events : List Event
events =
    select_all nodes
    ∷ toggle_selection 7 true
    ∷ node_deleted 2
    ∷ search
    ∷ toggle_selection 3 true
    ∷ []

abbrev selecting : State
selecting = run as_word initial (toggle_selection 3 true ∷ toggle_selection 5 true ∷ [])

step-Asked_example :
    All
      (Asked as_word selecting (delete_selected false true))
      (step as_word selecting (delete_selected false true)).1
step-Asked_example = step-Asked as_word selecting (delete_selected false true)

run-initial-select_run_example :
    contains
      (run as_word initial
        (toggle_selection 3 true ∷ toggle_selection 5 true ∷ node_deleted 3 ∷ [])).selected_ids
      5
    ≡ true
unfolding select_run select
run-initial-select_run_example =
    run-initial-select_run as_word
      (toggle_selection 3 true ∷ toggle_selection 5 true ∷ node_deleted 3 ∷ []) 5

abbrev nothing_marked : Marks
nothing_marked = record { selected_ids = []; testing = []; deleting = none; copied_id = none }

abbrev answered : NodesQuery
answered = record { is_loading = false; error = none; nodes = nodes }

abbrev same_text : Text → Text
same_text t = t

abbrev same_string : String → String
same_string s = s

list_screen-perm_example :
    Perm
      (card_nodes (list_screen same_text same_string nothing_marked true 0 50 answered).cards)
      nodes
    × ((list_screen same_text same_string nothing_marked true 0 50 answered).empty ≡ false)
list_screen-perm_example =
    list_screen-perm same_text same_string nothing_marked true 0 50 answered refl refl

-- VLESS has the colour of Shadowsocks.
vless_indigo : get_protocol_badge_style same_text (units "vless") ≡ indigo
unfolding get_protocol_badge_style includes starts_with
vless_indigo = refl
