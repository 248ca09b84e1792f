-- ===== src/Tests/Import.antt =====
-- The import panel at concrete addresses and events.
use poolx.Common.{ℕ, false, String, List, [], ◌∷◌, ◌++◌, Option, some, none, refl, All, string_eq}
use poolx.Common.Text.{Text, units}
use poolx.Import.{
  SourceConfigRecord, subscription_url, ParsedNodePreview, DuplicateScope, unique_node, batch,
  SourceParseResult, is_importable,
}
use poolx.Import.Origin.{Url}
use poolx.Import.Panel.{
  State, Event, initial, parsed, click_box, click_import, select_file, click_parse,
  importable_fingerprints, step, run,
}
use poolx.Import.Panel.Laws.{Allowed, run-initial-Allowed}

abbrev as_word : ℕ → String
as_word n = "n"

-- A reading of addresses for the examples: the text is the query of one host.
abbrev read_url : Text → Option Url
read_url t = some (record {
  protocol = units "https:";
  username = [];
  password = [];
  rest = units "//example.com/sub";
  search = t;
  hash = [];
})

abbrev print_url : Url → Text
print_url u = u.protocol ++ (u.rest ++ (u.search ++ u.hash))

abbrev subscription : Text → SourceConfigRecord
subscription address = record {
  id = 8;
  filename = [];
  source_type = subscription_url;
  source_url = some address;
  content_type = none;
  fetched_at = none;
  content_hash = "";
  status = "parsed";
  total_nodes = 2;
  valid_nodes = 2;
  invalid_nodes = 0;
  duplicate_nodes = 1;
  imported_nodes = 0;
  uploaded_by = "root";
  uploaded_by_id = 1;
  created_at = "";
  updated_at = "";
}

abbrev preview : String → DuplicateScope → ParsedNodePreview
preview fingerprint scope = record {
  name = "a";
  type = "ss";
  server = "1.1.1.1";
  port = 443;
  fingerprint = fingerprint;
  duplicate_scope = scope;
}

abbrev result : SourceParseResult
result = record {
  source_config = subscription (units "?token=a");
  summary = record {
    total_nodes = 3;
    valid_nodes = 3;
    invalid_nodes = 0;
    duplicate_nodes = 1;
    importable_nodes = 2;
  };
  nodes = preview "f1" unique_node ∷ preview "f1" batch ∷ preview "f2" unique_node ∷ [];
  errors = [];
}

abbrev events : List (Event String)
events = select_file (some "a.yaml") ∷ click_parse false ∷ parsed result ∷ click_box 0 false ∷ []

abbrev shown : State String
shown = run String as_word read_url (initial String) events

run-initial-Allowed_example :
    All
      (Allowed String as_word read_url shown)
      (step String as_word read_url shown (click_import false)).1
unfolding importable_fingerprints is_importable
run-initial-Allowed_example =
    run-initial-Allowed String as_word read_url events (click_import false)
      (tt, (tt, ((refl, (refl, tt)), (tt, tt))))
