-- ===== src/Tests/Requests.antt =====
-- Requests at concrete texts.
use poolx.Common.{List, map, ℕ, true, false, ◌&&◌, [], ◌∷◌, none, some, String, ◌≡◌, refl, leb, ltb}
use poolx.Common.Text.{trim, trim_start, trim_end, is_space, Text, units, join}
use poolx.Api.{Body, unreadable, api_result, upload_loaded, fetch_options}
use poolx.Url.Laws.{AreWellFormed, IsWellFormed-test}
use poolx.Url.{
  code_points, points_from, query_part, query_bytes, utf8, utf8_all, escape, form_byte,
  component_byte, search_params, encode_uri_component,
}
use poolx.Url.Reading.{read_url}
use poolx.Requests.{Request, init_of}
use poolx.Requests.Settings.{upload_mihomo_binary, upload_server_binary, mihomo_loaded}
use poolx.Requests.Calls.{Call, NodeCall, settings, nodes, bind_email, request_of}
use poolx.Common.Number.{print, digits_with}
use poolx.Nodes.{ProxyNodeItem}
use poolx.Nodes.Page as NodesPage
use poolx.Nodes.Page.{list_params}
use poolx.Nodes.Request.{only_enabled, list_query}
use poolx.Requests.Nodes.{value_text}
use poolx.Requests.Parameters.{node_parameters}
use poolx.Requests.Pages.{list_call, node_call}
use poolx.Requests.Pages.Laws.{body_filter, query_filter, test_filtered-list}
use poolx.Requests.Parameters.{parameters_of}
use poolx.Requests.Laws.{Sends, request_of-parameters, AreAlike, uploads-AreAlike}

-- A file is its name.
abbrev bind : Call Text
bind = settings (bind_email (units "a&b=c@x.org") (units "1 %é?"))

abbrev same : String → String
same s = s

bind-AreWellFormed : AreWellFormed (parameters_of bind)
unfolding parameters_of code_points points_from
bind-AreWellFormed = (
  (IsWellFormed-test (units "email") refl refl, IsWellFormed-test (units "a&b=c@x.org") refl refl),
  ((IsWellFormed-test (units "code") refl refl, IsWellFormed-test (units "1 %é?") refl refl), tt),
)

-- What is written into the URL.
bind_path :
    search_params ((units "email", units "a&b=c@x.org") ∷ (units "code", units "1 %é?") ∷ [])
    ≡ units "email=a%26b%3Dc%40x.org&code=1+%25%C3%A9%3F"
unfolding search_params query_part query_bytes code_points points_from utf8_all utf8 escape
    form_byte join
bind_path = refl

component_smile : encode_uri_component (units "😀/") ≡ some (units "%F0%9F%98%80%2F")
unfolding encode_uri_component code_points points_from utf8_all utf8 escape component_byte
component_smile = refl

-- Half of a pair alone makes `encodeURIComponent` throw.
component_half : encode_uri_component (0xd83d ∷ []) ≡ none
unfolding encode_uri_component code_points points_from utf8_all utf8 escape component_byte
component_half = refl

request_of-parameters_example :
    (r : Request Text) × (request_of bind ≡ some r)
    × ((read_url r.path).1 ≡ parameters_of bind)
    × Sends r (fetch_options same (init_of r))
request_of-parameters_example = request_of-parameters same refl bind bind-AreWellFormed

abbrev cut_off : Body ℕ
cut_off = unreadable

abbrev as_word : ℕ → String
as_word n = "n"

uploads-AreAlike_example :
    AreAlike same
      (upload_mihomo_binary (units "mihomo") (units "/opt") true)
      (upload_mihomo_binary (units "mihomo") (units "/opt") false)
    × AreAlike same
        (upload_server_binary (units "mihomo") true)
        (upload_server_binary (units "mihomo") false)
    × (mihomo_loaded as_word 502 cut_off
        ≡ api_result as_word
            (record { ok = leb 200 502 && ltb 502 300; status = 502; body = cut_off }))
    × (upload_loaded as_word 502 cut_off
        ≡ api_result as_word
            (record { ok = leb 200 502 && ltb 502 300; status = 502; body = cut_off }))
uploads-AreAlike_example = uploads-AreAlike same as_word (units "mihomo") (units "/opt") 502 cut_off

-- The node page with a keyword that holds separators, for enabled nodes.
abbrev searched : NodesPage.State
searched = record NodesPage.initial { keyword = units "a&b"; enabled_filter = only_enabled }

abbrev one_node : List ProxyNodeItem
one_node =
    record {
      id = 7;
      source_config_id = 1;
      source_config_name = [];
      name = units "a&b 1";
      type = units "ss";
      server = units "1.1.1.1";
      port = 443;
      tags = [];
      metadata_json = "";
      enabled = true;
      last_test_status = "unknown";
      last_latency_ms = none;
      last_test_error = none;
      last_tested_at = none;
      created_at = "";
      updated_at = "";
    }
    ∷ []

searched-AreWellFormed : AreWellFormed (node_parameters {File = Text} (list_call searched))
unfolding list_call list_query list_params code_points points_from value_text print digits_with trim
    trim_start trim_end is_space
searched-AreWellFormed = (
  (IsWellFormed-test (units "p") refl refl, IsWellFormed-test (units "0") refl refl),
  (
    (IsWellFormed-test (units "keyword") refl refl, IsWellFormed-test (units "a&b") refl refl),
    (
      (IsWellFormed-test (units "enabled") refl refl, IsWellFormed-test (units "true") refl refl),
      (
        (IsWellFormed-test (units "page_size") refl refl, IsWellFormed-test (units "50") refl refl),
        (
          (
            IsWellFormed-test (units "sort") refl refl,
            IsWellFormed-test (units "id_desc") refl refl,
          ),
          tt,
        ),
      ),
    ),
  ),
)

test_filtered-list_example :
    (c : NodeCall Text) × (test list : Request Text) × (map node_call
        (NodesPage.step as_word searched (NodesPage.test_filtered false one_node true)).1
      ≡ some c ∷ [])
    × (request_of (nodes c) ≡ some test)
    × (request_of (nodes (list_call searched)) ≡ some list)
    × (body_filter test.body ≡ query_filter (read_url list.path).1)
test_filtered-list_example =
    test_filtered-list Text as_word searched one_node refl searched-AreWellFormed
