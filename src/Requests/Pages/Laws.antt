-- ===== src/Requests/Pages/Laws.antt =====
-- The test of all nodes covers the nodes of the list on the screen.
use poolx.Common.{
  ℕ, Bool, true, false, List, [], ◌∷◌, Option, none, some, String, map, if◌then◌else◌, is_empty,
  ◌≡◌, refl, Bool-cases, inl, inr, ◌==◌, list_eq, nat_eq, str_eq,
}
use poolx.Common.Text.{Text, units, trim}
use poolx.Url.Laws.{AreWellFormed}
use poolx.Url.Reading.{read_url}
use poolx.Nodes.{ProxyNodeItem}
use poolx.Nodes.Request.{
  EnabledFilter, all_nodes, only_enabled, only_disabled, list_query, test_all_body,
}
use poolx.Nodes.Page.{State, step, test_filtered, list_params}
use poolx.Requests.{
  Json, text, flag, object, JsonFields, end, field, RequestBody, json_body, Request,
}
use poolx.Requests.Nodes.{as_texts, value_text, test_all_proxy_nodes}
use poolx.Requests.Calls
use poolx.Requests.Calls.{NodeCall, node_request, nodes, request_of}
use poolx.Requests.Pages.{list_call, node_call}
use poolx.Requests.Laws.Nodes.{node_request-Served}
use poolx.Requests.Parameters.{node_parameters}

-- The filter of a query: a keyword, and whether enabled nodes are wanted.
unfoldable pub find_text : Text → List (Text × Text) → Option Text
find_text name [] = none
find_text name ((n, value) ∷ params) = if n == name then some value else find_text name params

abbrev as_bool : Option Text → Option Bool
as_bool none = none
as_bool (some t) = some (t == units "true")

abbrev pub query_filter : List (Text × Text) → Option Text × Option Bool
query_filter params =
    (find_text (units "keyword") params, as_bool (find_text (units "enabled") params))

-- The filter of a body.
unfoldable pub find_field : String → JsonFields → Option Json
find_field name end = none
find_field name (field n value fields) =
    if str_eq n name then some value else find_field name fields

abbrev as_text : Option Json → Option Text
as_text (some (text t)) = some t
as_text _ = none

abbrev as_flag : Option Json → Option Bool
as_flag (some (flag b)) = some b
as_flag _ = none

abbrev pub body_filter : {File : Type 0} → RequestBody File → Option Text × Option Bool
body_filter (json_body (object fields)) =
    (as_text (find_field "keyword" fields), as_flag (find_field "enabled" fields))
body_filter _ = (none, none)

module _ (File : Type 0) where
  -- By the state wanted, and whether the keyword is blank.
  same_filter :
      (s : State) (enabled : EnabledFilter)
      → s.enabled_filter ≡ enabled
      → body_filter (test_all_proxy_nodes {File = File} (some s.keyword) (some enabled)).body
        ≡ query_filter (as_texts (list_query (list_params s)))
  unfolding test_all_proxy_nodes test_all_body list_query list_params find_text find_field
      value_text
  same_filter s all_nodes e = elim (Bool-cases (is_empty (trim s.keyword))) [
    | inl b ↦ rw (e, b) refl
    | inr b ↦ rw (e, b) refl
  ]
  same_filter s only_enabled e = elim (Bool-cases (is_empty (trim s.keyword))) [
    | inl b ↦ rw (e, b) refl
    | inr b ↦ rw (e, b) refl
  ]
  same_filter s only_disabled e = elim (Bool-cases (is_empty (trim s.keyword))) [
    | inl b ↦ rw (e, b) refl
    | inr b ↦ rw (e, b) refl
  ]

  -- Where the button is enabled, the question is answered with yes, and no text among the parameters
  -- of the list's URL holds a lone surrogate, the page sends one request to test all nodes, whose
  -- body names the filter that the server reads in the URL of the list on the screen: the same
  -- keyword and the same state, or none of them, also where the keyword holds characters that a URL
  -- reserves.
  pub test_filtered-list :
      (show : ℕ → String) (s : State) (shown : List ProxyNodeItem)
      → is_empty shown ≡ false
      → AreWellFormed (node_parameters {File = File} (list_call s))
      → (c : NodeCall File) × (test list : Request File) × (map node_call
            (step show s (test_filtered false shown true)).1
          ≡ some c ∷ [])
        × (request_of (nodes c) ≡ some test)
        × (request_of (nodes (list_call s)) ≡ some list)
        × (body_filter test.body ≡ query_filter (read_url list.path).1)
  unfolding step node_call list_call request_of node_request
  test_filtered-list show s shown some_shown w =
      let (list, made, read, _) = node_request-Served (list_call s) w in
      (
        Calls.test_all_proxy_nodes (some s.keyword) (some s.enabled_filter),
        test_all_proxy_nodes (some s.keyword) (some s.enabled_filter),
        list,
        rw some_shown refl,
        refl,
        made,
        rw read (same_filter s s.enabled_filter refl),
      )
