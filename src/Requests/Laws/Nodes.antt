-- ===== src/Requests/Laws/Nodes.antt =====
-- The requests about nodes and ports carry the parameters of their calls.
use poolx.Common.{Bool, true, false, List, [], ◌∷◌, ◌++◌, some, refl, is_empty, if◌then◌else◌}
use poolx.Common.Text.{Text, units, trim, join}
use poolx.Url.Laws.{AreWellFormed, is_empty-query_part}
use poolx.Url.{search_params}
use poolx.Requests.{get}
use poolx.Requests.Calls.{
  NodeCall, create_port_profile, delete_port_profile, delete_port_profile_template,
  delete_proxy_node, delete_proxy_nodes, get_port_profile, get_port_profile_templates,
  get_port_profiles, get_proxy_node_options, get_proxy_nodes, import_source_config, node_request,
  parse_source_config, parse_source_config_by_url, preview_port_profile, preview_saved_port_profile,
  save_port_profile_template, save_runtime_config, test_all_proxy_nodes, test_parsed_nodes,
  test_proxy_nodes, update_port_profile, update_proxy_node_status, update_proxy_node_tags,
}
use poolx.Requests.Parameters.{node_parameters}
use poolx.Requests.Laws.Shapes.{
  Served, plain_get, plain_json, plain_form, id_get, id_post, id_json, query_get,
}

module _ {File : Type 0} where
  -- The keyword of the options, where it is not blank.
  options-Served :
      (blank : Bool) (keyword : Text)
      → let params : List (Text × Text) = if blank then [] else (units "keyword", keyword) ∷ [] in
        AreWellFormed params
        → Served {File = File}
            (some (
              get (
                units "/proxy-nodes/options"
                ++ (if is_empty (search_params params) then [] else b'?' ∷ search_params params))))
            params
  unfolding search_params join
  options-Served true keyword w = plain_get "/proxy-nodes/options" refl
  options-Served false keyword w =
      rw (is_empty-query_part (units "keyword", keyword))
        (query_get "/proxy-nodes/options" ((units "keyword", keyword) ∷ []) refl w)

  pub node_request-Served :
      (c : NodeCall File)
      → AreWellFormed (node_parameters c)
      → Served (node_request c) (node_parameters c)
  unfolding node_request
  node_request-Served (get_proxy_nodes a) w = query_get "/proxy-nodes" _ refl w
  node_request-Served (update_proxy_node_status a b) w =
      id_json "/proxy-nodes/" a "/status" _ refl refl
  node_request-Served (delete_proxy_node a) w = id_post "/proxy-nodes/" a "/delete" refl refl
  node_request-Served (delete_proxy_nodes a) w = plain_json "/proxy-nodes/delete" _ refl
  node_request-Served (update_proxy_node_tags a b) w = plain_json "/proxy-nodes/tags" _ refl
  node_request-Served (test_proxy_nodes a) w = plain_json "/proxy-nodes/test" _ refl
  node_request-Served (test_all_proxy_nodes a b) w = plain_json "/proxy-nodes/test-all" _ refl
  node_request-Served get_port_profiles w = plain_get "/port-profiles" refl
  node_request-Served (get_port_profile a) w = id_get "/port-profiles/" a "" refl refl
  node_request-Served (create_port_profile a) w = plain_json "/port-profiles" _ refl
  node_request-Served (update_port_profile a b) w = id_json "/port-profiles/" a "" _ refl refl
  node_request-Served (delete_port_profile a) w = id_post "/port-profiles/" a "/delete" refl refl
  node_request-Served (preview_port_profile a) w = plain_json "/port-profiles/preview" _ refl
  node_request-Served (preview_saved_port_profile a) w =
      id_get "/port-profiles/" a "/preview" refl refl
  node_request-Served (save_runtime_config a) w =
      id_post "/port-profiles/" a "/runtime/save" refl refl
  node_request-Served (get_proxy_node_options a) w = options-Served (is_empty (trim a)) (trim a) w
  node_request-Served get_port_profile_templates w = plain_get "/port-profile-templates" refl
  node_request-Served (save_port_profile_template a b) w =
      plain_json "/port-profile-templates" _ refl
  node_request-Served (delete_port_profile_template a) w =
      id_post "/port-profile-templates/" a "/delete" refl refl
  node_request-Served (parse_source_config a) w = plain_form "/source-configs/parse" _ refl
  node_request-Served (parse_source_config_by_url a) w =
      plain_json "/source-configs/parse-url" _ refl
  node_request-Served (import_source_config a b) w = plain_json "/source-configs/import" _ refl
  node_request-Served (test_parsed_nodes a b) w = plain_json "/source-configs/test" _ refl
