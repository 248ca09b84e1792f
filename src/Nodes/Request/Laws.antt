-- ===== src/Nodes/Request/Laws.antt =====
-- The listing and the test of all nodes filter alike.
use poolx.Common.{Bool, Option, none, some, ◌≡◌, arith}
use poolx.Common.Text.{Text}
use poolx.Nodes.Request.{
  QueryValue, text, flag, ListParams, trimmed, wanted, list_query, test_all_body, lookup_param,
}

abbrev pub as_text : Option Text → Option QueryValue
as_text none = none
as_text (some t) = some (text t)

abbrev pub as_flag : Option Bool → Option QueryValue
as_flag none = none
as_flag (some b) = some (flag b)

pub keyword-param :
    (params : ListParams)
    → lookup_param "keyword" (list_query params) ≡ as_text (trimmed params.keyword)
unfolding list_query lookup_param
keyword-param params = ground arith

enabled-param :
    (params : ListParams)
    → lookup_param "enabled" (list_query params) ≡ as_flag (wanted params.enabled)
unfolding list_query lookup_param
enabled-param params = ground arith

-- For the same keyword and state, the query of the listing and the body of the test of all nodes
-- name the same filter, and both name no keyword where it is blank and no state for "all".
pub list_query-test_all_body :
    (params : ListParams)
    → (lookup_param "keyword" (list_query params)
        ≡ as_text (test_all_body params.keyword params.enabled).keyword)
      × (lookup_param "enabled" (list_query params)
          ≡ as_flag (test_all_body params.keyword params.enabled).enabled)
unfolding test_all_body
list_query-test_all_body params = (keyword-param params, enabled-param params)
