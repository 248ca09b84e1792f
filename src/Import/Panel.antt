-- ===== src/Import/Panel.antt =====
-- `SourceImportPanel` of components/source-import-page.tsx: its state, mutations and buttons.
-- `pending` says that the mutation behind a button runs. `File` is the browser's type of files,
-- `parse_url` its constructor of `URL`, and `show` prints a number.
pub mod Validity
pub mod Laws
use Prim.Native.String.{◌++◌ as str_append}
use poolx.Common.{
  ℕ, zero, suc, ◌+◌, Bool, true, false, not, ◌||◌, List, [], ◌∷◌, Option, none, some, String, map,
  filter, length, if◌then◌else◌, is_empty, string_eq,
}
use poolx.Common.Text.{Text, trim}
use poolx.Common.Unique.{contains, toggle}
use poolx.Ui.{Tone, FeedbackState, success, danger, info, Thrown, an_error, message_of}
use poolx.Import.{
  SourceType, upload, subscription_url, ParsedNodePreview, ParseSummary, SourceParseResult,
  SourceImportResult, ParsedNodeTestResult, is_importable,
}
use poolx.Import.Origin.{Url, is_valid_subscription_url}

pub record State (File : Type 0) : Type 0 where
  pub source_mode : SourceType
  pub selected_file : Option File
  pub subscription_address : Text
  pub parse_result : Option SourceParseResult
  pub preview_nodes : List ParsedNodePreview
  pub selected_fingerprints : List String
  pub test_results : List ParsedNodeTestResult
  pub feedback : Option FeedbackState

-- The requests of the mutations; `reject_*` is a mutation that throws before its request, and
-- `report_import` the call of `onImportSuccess`.
pub data Effect (File : Type 0) : Type 0 where
  parse_source_config : File → Effect File
  parse_source_config_by_url : Text → Effect File
  import_source_config test_parsed_nodes : ℕ → List String → Effect File
  reject_parse reject_import reject_test : Thrown → Effect File
  report_import : SourceImportResult → Effect File

-- What happens to the panel.
pub data Event (File : Type 0) : Type 0 where
  set_source_mode : SourceType → Event File
  select_file : Option File → Event File
  set_subscription_address : Text → Event File
  click_parse click_test click_import : (pending : Bool) → Event File
  clear select_importable clear_selection remove_selected : Event File
  -- The box of the preview at this index was ticked or cleared.
  click_box : ℕ → (checked : Bool) → Event File
  -- `onSuccess` and `onError` of the mutations.
  parsed : SourceParseResult → Event File
  imported : SourceImportResult → Event File
  tested : List ParsedNodeTestResult → Event File
  parse_failed import_failed test_failed : Thrown → Event File

-- The fingerprints of the nodes that can be imported.
unfoldable pub importable_fingerprints : List ParsedNodePreview → List String
importable_fingerprints nodes = map (λ n. n.fingerprint) (filter is_importable nodes)

unfoldable pub node_at : ℕ → List ParsedNodePreview → Option ParsedNodePreview
node_at n [] = none
node_at zero (x ∷ xs) = some x
node_at (suc n) (x ∷ xs) = node_at n xs

-- `summary`, where something was parsed.
unfoldable pub summary : {File : Type 0} → State File → Option ParseSummary
summary s = elim s.parse_result [
  | none ↦ none
  | some result ↦ some (record {
    total_nodes = length s.preview_nodes + length result.errors;
    valid_nodes = length s.preview_nodes;
    invalid_nodes = length result.errors;
    duplicate_nodes = length (filter (λ n. not (is_importable n)) s.preview_nodes);
    importable_nodes = length (filter is_importable s.preview_nodes);
  })
]

module _ (File : Type 0) where
  abbrev pub initial : State File
  initial = record {
    source_mode = upload;
    selected_file = none;
    subscription_address = [];
    parse_result = none;
    preview_nodes = [];
    selected_fingerprints = [];
    test_results = [];
    feedback = none;
  }

  abbrev says : Tone → String → State File → State File
  says tone text s = record s { feedback = some (record { tone = tone; message = text }) }

  abbrev failed : Thrown → State File → State File
  failed thrown s = says danger (message_of "请求失败，请稍后重试。" thrown) s

  -- `parseMutation.mutationFn`.
  unfoldable pub parse_request : (Text → Option Url) → State File → Effect File
  parse_request parse_url s = elim s.source_mode [
    | upload ↦ elim s.selected_file [
      | none ↦ reject_parse (an_error "请先选择 YAML 文件。")
      | some file ↦ parse_source_config file
    ]
    | subscription_url ↦
        let normalized_url = trim s.subscription_address in
        if is_valid_subscription_url parse_url normalized_url
        then parse_source_config_by_url normalized_url
        else reject_parse (an_error "请输入有效的 http/https 订阅地址。")
  ]

  -- `importMutation.mutationFn` and `testMutation.mutationFn`.
  unfoldable pub import_request : State File → Effect File
  import_request s = elim s.parse_result [
    | none ↦ reject_import (an_error "请先完成解析。")
    | some result ↦ import_source_config result.source_config.id s.selected_fingerprints
  ]

  unfoldable pub test_request : State File → Effect File
  test_request s = elim s.parse_result [
    | none ↦ reject_test (an_error "请先完成解析。")
    | some result ↦
        if is_empty s.selected_fingerprints
        then reject_test (an_error "请先选择要测速的节点。")
        else test_parsed_nodes result.source_config.id s.selected_fingerprints
  ]

  -- The parse result after an import.
  unfoldable pub mark_imported :
      SourceImportResult → Option SourceParseResult → Option SourceParseResult
  mark_imported result none = none
  mark_imported result (some previous) =
      let config = previous.source_config in
      some (record previous {
        source_config = record config {
          status = "imported";
          imported_nodes = result.imported_nodes;
          duplicate_nodes = result.skipped_nodes;
        };
      })

  -- A click on the box of a node: it is disabled for a duplicate.
  unfoldable pub toggle_node : Option ParsedNodePreview → Bool → State File → State File
  toggle_node none checked s = s
  toggle_node (some node) checked s =
      if is_importable node
      then record s {
        selected_fingerprints = toggle s.selected_fingerprints node.fingerprint checked;
      }
      else s

  -- The button that removes the selected nodes from the preview.
  unfoldable pub remove_previews : State File → State File
  remove_previews s =
      if is_empty s.selected_fingerprints
      then says danger "请先选择要删除的预览节点。" s
      else says info "已从当前预览中移除选中节点，本次导入和测速都不会再包含它们。" (record s {
        preview_nodes =
            filter (λ n. not (contains s.selected_fingerprints n.fingerprint)) s.preview_nodes;
        selected_fingerprints = [];
        test_results = [];
      })

  -- Steps that show their outcome; the buttons behind the preview are there once it is parsed.
  module _ (show : ℕ → String) (parse_url : Text → Option Url) where
    unfoldable pub step : State File → Event File → State File × List (Effect File)
    step s (set_source_mode mode) = (record s { source_mode = mode }, [])
    step s (select_file file) = (record s { selected_file = file }, [])
    step s (set_subscription_address t) = (record s { subscription_address = t }, [])
    step s (click_parse pending) =
        if pending then (s, []) else (record s { feedback = none }, parse_request parse_url s ∷ [])
    step s (click_test pending) =
        if pending || is_empty s.selected_fingerprints
        then (s, [])
        else (record s { feedback = none }, test_request s ∷ [])
    step s (click_import pending) =
        if pending || is_empty s.selected_fingerprints
        then (s, [])
        else (record s { feedback = none }, import_request s ∷ [])
    step s clear = (initial, [])
    step s select_importable =
        (record s { selected_fingerprints = importable_fingerprints s.preview_nodes }, [])
    step s clear_selection = (record s { selected_fingerprints = [] }, [])
    step s remove_selected = (remove_previews s, [])
    step s (click_box n checked) = (toggle_node (node_at n s.preview_nodes) checked s, [])
    step s (parsed result) = (
      says success (str_append "解析完成，识别到 " (str_append (show result.summary.valid_nodes) " 个有效节点。"))
          (record s {
            parse_result = some result;
            preview_nodes = result.nodes;
            selected_fingerprints = importable_fingerprints result.nodes;
            test_results = [];
          }),
      [],
    )
    step s (parse_failed thrown) = (
      failed thrown (record s {
        parse_result = none;
        preview_nodes = [];
        selected_fingerprints = [];
        test_results = [];
      }),
      [],
    )
    step s (imported result) = (
      says success
          (str_append (str_append "导入完成，新增 " (show result.imported_nodes))
            (str_append " 个节点，跳过 " (str_append (show result.skipped_nodes) " 个重复节点。")))
          (record s { parse_result = mark_imported result s.parse_result }),
      report_import result ∷ [],
    )
    step s (import_failed thrown) = (failed thrown s, [])
    step s (tested results) = (
      says success (str_append "测速完成，共返回 " (str_append (show (length results)) " 条结果。"))
          (record s { test_results = results }),
      [],
    )
    step s (test_failed thrown) = (failed thrown s, [])

    unfoldable pub run : State File → List (Event File) → State File
    run s [] = s
    run s (e ∷ es) = run (step s e).0 es
