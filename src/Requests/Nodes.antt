-- ===== src/Requests/Nodes.antt =====
-- The requests about nodes and ports: server/web/features/nodes/api/nodes.ts,
-- workspace/api/workspace.ts and import/api/source-import.ts beside it.
use poolx.Common.{
  ℕ, Bool, List, [], ◌∷◌, ◌++◌, Option, none, some, String, map, if◌then◌else◌, is_empty,
}
use poolx.Common.Number.{print}
use poolx.Common.Text.{Text, units, trim}
use poolx.Url.{search_params}
use poolx.Nodes.Request.{
  ProxyNodeSort, id_desc, latency_asc, EnabledFilter, QueryValue, ListParams, list_query,
  TestAllBody, test_all_body,
}
use poolx.Nodes.Request
use poolx.Requests.{
  Json, text, number, flag, list, object, JsonFields, end, field, texts, numbers, file_value,
  Request, get, post, post_json, post_form, with_id, with_query,
}

-- `String(…)` of the value of a parameter.
unfoldable pub value_text : QueryValue → Text
value_text (Request.number n) = print n
value_text (Request.text t) = t
value_text (Request.flag b) = units (if b then "true" else "false")
value_text (Request.order id_desc) = units "id_desc"
value_text (Request.order latency_asc) = units "latency_asc"

abbrev pub as_texts : List (String × QueryValue) → List (Text × Text)
as_texts = map (λ (name, value). (units name, value_text value))

-- The body of `testAllProxyNodes`; a key that is not set is left out.
abbrev pub enabled_field : Option Bool → JsonFields
enabled_field none = end
enabled_field (some b) = field "enabled" (flag b) end

abbrev pub test_all_fields : TestAllBody → JsonFields
test_all_fields body = elim body.keyword [
  | none ↦ enabled_field body.enabled
  | some k ↦ field "keyword" (text k) (enabled_field body.enabled)
]

-- The body of `importSourceConfig` and of `testParsedNodes`.
abbrev selection : ℕ → List Text → Json
selection source_config_id fingerprints = object (
    field "source_config_id" (number source_config_id)
      (field "fingerprints" (list (texts fingerprints)) end))

module _ {File : Type 0} where
  unfoldable pub get_proxy_nodes : ListParams → Request File
  get_proxy_nodes params = get (with_query "/proxy-nodes" (as_texts (list_query params)))

  unfoldable pub update_proxy_node_status : ℕ → Bool → Request File
  update_proxy_node_status id enabled =
      post_json (with_id "/proxy-nodes/" id "/status") (object (field "enabled" (flag enabled) end))

  unfoldable pub delete_proxy_node : ℕ → Request File
  delete_proxy_node id = post (with_id "/proxy-nodes/" id "/delete")

  unfoldable pub delete_proxy_nodes : List ℕ → Request File
  delete_proxy_nodes node_ids =
      post_json (units "/proxy-nodes/delete")
        (object (field "node_ids" (list (numbers node_ids)) end))

  unfoldable pub update_proxy_node_tags : List ℕ → Text → Request File
  update_proxy_node_tags node_ids tags =
      post_json (units "/proxy-nodes/tags")
        (object (field "node_ids" (list (numbers node_ids)) (field "tags" (text tags) end)))

  unfoldable pub test_proxy_nodes : List ℕ → Request File
  test_proxy_nodes node_ids =
      post_json (units "/proxy-nodes/test")
        (object (field "node_ids" (list (numbers node_ids)) end))

  unfoldable pub test_all_proxy_nodes : Option Text → Option EnabledFilter → Request File
  test_all_proxy_nodes keyword enabled =
      post_json (units "/proxy-nodes/test-all")
        (object (test_all_fields (test_all_body keyword enabled)))

  unfoldable pub get_port_profiles : Request File
  get_port_profiles = get (units "/port-profiles")

  unfoldable pub get_port_profile : ℕ → Request File
  get_port_profile id = get (with_id "/port-profiles/" id "")

  unfoldable pub create_port_profile : Json → Request File
  create_port_profile payload = post_json (units "/port-profiles") payload

  unfoldable pub update_port_profile : ℕ → Json → Request File
  update_port_profile id payload = post_json (with_id "/port-profiles/" id "") payload

  unfoldable pub delete_port_profile : ℕ → Request File
  delete_port_profile id = post (with_id "/port-profiles/" id "/delete")

  unfoldable pub preview_port_profile : Json → Request File
  preview_port_profile payload = post_json (units "/port-profiles/preview") payload

  unfoldable pub preview_saved_port_profile : ℕ → Request File
  preview_saved_port_profile id = get (with_id "/port-profiles/" id "/preview")

  unfoldable pub save_runtime_config : ℕ → Request File
  save_runtime_config id = post (with_id "/port-profiles/" id "/runtime/save")

  unfoldable pub get_proxy_node_options : Text → Request File
  get_proxy_node_options keyword =
      let params = if is_empty (trim keyword) then [] else (units "keyword", trim keyword) ∷ [] in
      let query = search_params params in
      get (units "/proxy-nodes/options" ++ (if is_empty query then [] else b'?' ∷ query))

  unfoldable pub get_port_profile_templates : Request File
  get_port_profile_templates = get (units "/port-profile-templates")

  unfoldable pub save_port_profile_template : Text → Json → Request File
  save_port_profile_template name payload =
      post_json (units "/port-profile-templates")
        (object (field "name" (text name) (field "payload" payload end)))

  unfoldable pub delete_port_profile_template : ℕ → Request File
  delete_port_profile_template id = post (with_id "/port-profile-templates/" id "/delete")

  unfoldable pub parse_source_config : File → Request File
  parse_source_config file =
      post_form (units "/source-configs/parse") (("file", file_value file) ∷ [])

  -- `parseSourceConfigByURL`.
  unfoldable pub parse_source_config_by_url : Text → Request File
  parse_source_config_by_url url =
      post_json (units "/source-configs/parse-url") (object (field "url" (text url) end))

  unfoldable pub import_source_config : ℕ → List Text → Request File
  import_source_config source_config_id fingerprints =
      post_json (units "/source-configs/import") (selection source_config_id fingerprints)

  unfoldable pub test_parsed_nodes : ℕ → List Text → Request File
  test_parsed_nodes source_config_id fingerprints =
      post_json (units "/source-configs/test") (selection source_config_id fingerprints)
