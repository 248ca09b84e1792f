-- ===== src/Nodes/Page.antt =====
-- components/nodes-page.tsx: the state of the page and its handlers. `nodes` is the data of the
-- list query, `pending` says that the mutation behind a button runs, `confirmed` is the answer to
-- `window.confirm`.
pub mod Laws
pub mod Selection
use poolx.Common.{
  ℕ, ◌+◌, ◌-◌, Bool, true, false, not, ◌&&◌, ◌||◌, List, [], ◌∷◌, ◌++◌, Option, none, some, String,
  map, if◌then◌else◌, is_empty, length, ltb, ◌==◌, nat_eq, or_else,
}
use Prim.Native.String.{◌++◌ as str_append}
use poolx.Common.Text.{Text, trim}
use poolx.Common.Unique.{contains, toggle, remove}
use poolx.Ui.{Tone, FeedbackState, success, danger, Thrown, message_of}
use poolx.Nodes.{ProxyNodeItem}
use poolx.Nodes.Request.{ProxyNodeSort, id_desc, EnabledFilter, all_nodes, ListParams}
use poolx.Nodes.Tags.{add_preset_tag}

pub record State : Type 0 where
  pub page : ℕ
  pub keyword_input : Text
  pub keyword : Text
  pub enabled_filter : EnabledFilter
  pub page_size : ℕ
  pub sort_by : ProxyNodeSort
  pub group_by_region : Bool
  pub selected_ids : List ℕ
  pub feedback : Option FeedbackState
  pub tags_input : Text
  pub auto_refresh : Bool
  pub is_import_modal_open : Bool
  pub copied_id : Option ℕ

abbrev pub initial : State
initial = record {
  page = 0;
  keyword_input = [];
  keyword = [];
  enabled_filter = all_nodes;
  page_size = 50;
  sort_by = id_desc;
  group_by_region = false;
  selected_ids = [];
  feedback = none;
  tags_input = [];
  auto_refresh = false;
  is_import_modal_open = false;
  copied_id = none;
}

-- The requests of the mutations, and the queries that are invalidated.
pub data Effect : Type 0 where
  delete_node : ℕ → Effect
  delete_nodes test_nodes : List ℕ → Effect
  test_all : Text → EnabledFilter → Effect
  update_tags : List ℕ → Text → Effect
  invalidate_nodes invalidate_workspace : Effect

abbrev pub Result : Type 0
Result = State × List Effect

-- The query of the list, for the current state.
unfoldable pub list_params : State → ListParams
list_params s = record {
  page = s.page;
  keyword = some s.keyword;
  enabled = some s.enabled_filter;
  page_size = some s.page_size;
  sort = some s.sort_by;
}

abbrev said : String → State → State
said text s = record s { feedback = some (record { tone = success; message = text }) }

abbrev warned : String → State → State
warned text s = record s { feedback = some (record { tone = danger; message = text }) }

abbrev choose_first : String
choose_first = "请先选择至少一个节点。"

-- The buttons that test and delete; one that is disabled does nothing.
abbrev click_test_selected : (pending : Bool) → State → Result
click_test_selected pending s =
    if pending || is_empty s.selected_ids
    then (s, [])
    else (record s { feedback = none }, test_nodes s.selected_ids ∷ [])

abbrev click_test_filtered :
    (pending : Bool) → List ProxyNodeItem → (confirmed : Bool) → State → Result
click_test_filtered pending nodes confirmed s =
    if pending || is_empty nodes || not confirmed
    then (s, [])
    else (record s { feedback = none }, test_all s.keyword s.enabled_filter ∷ [])

abbrev click_delete_selected : (pending : Bool) → (confirmed : Bool) → State → Result
click_delete_selected pending confirmed s =
    if pending || is_empty s.selected_ids || not confirmed
    then (s, [])
    else (record s { feedback = none }, delete_nodes s.selected_ids ∷ [])

abbrev click_test_one : (testing : List ℕ) → ℕ → State → Result
click_test_one testing id s =
    if contains testing id
    then (s, [])
    else (record s { feedback = none }, test_nodes (id ∷ []) ∷ [])

abbrev click_delete_one : (deleting : Option ℕ) → ℕ → (confirmed : Bool) → State → Result
click_delete_one deleting id confirmed s =
    if contains (elim deleting [ none ↦ [] | some d ↦ d ∷ [] ]) id || not confirmed
    then (s, [])
    else (record s { feedback = none }, delete_node id ∷ [])

-- What happens to the page. `show` prints a number; see `step`.
pub data Event : Type 0 where
  -- The filter card.
  set_keyword_input : Text → Event
  search reset : Event
  set_enabled_filter : EnabledFilter → Event
  set_page_size : ℕ → Event
  set_sort_by : ProxyNodeSort → Event
  set_group_by_region : Bool → Event
  -- The selection, and its buttons.
  toggle_selection : ℕ → Bool → Event
  select_all : List ProxyNodeItem → Event
  clear_selection : Event
  test_selected : Bool → Event
  test_filtered : (pending : Bool) → List ProxyNodeItem → (confirmed : Bool) → Event
  delete_selected : (pending : Bool) → (confirmed : Bool) → Event
  set_tags_input : Text → Event
  preset_tag : Text → Event
  save_tags : Bool → Event
  -- A node's card; `testing` is `testMutation.variables` while that mutation runs.
  test_one : (testing : List ℕ) → ℕ → Event
  delete_one : (deleting : Option ℕ) → ℕ → (confirmed : Bool) → Event
  copied : ℕ → Event
  copy_timeout : Event
  -- Paging; `loading` is `nodesQuery.isLoading`.
  previous_page : (loading : Bool) → Event
  next_page : (loading : Bool) → List ProxyNodeItem → Event
  -- The header and the import dialog.
  toggle_auto_refresh open_import close_import : Event
  imported : ℕ → ℕ → Event
  -- `onSuccess` and `onError` of the mutations.
  node_deleted nodes_deleted nodes_tested all_tested tags_updated : ℕ → Event
  failed : Thrown → Event

module _ (show : ℕ → String) where
  abbrev counted : String → ℕ → String → String
  counted front n back = str_append front (str_append (show n) back)

  unfoldable pub step : State → Event → Result
  step s (set_keyword_input t) = (record s { keyword_input = t }, [])
  step s search = (
    record s { page = 0; selected_ids = []; feedback = none; keyword = trim s.keyword_input },
    [],
  )
  step s reset = (
    record s {
      page = 0;
      keyword_input = [];
      keyword = [];
      enabled_filter = all_nodes;
      page_size = 50;
      sort_by = id_desc;
      group_by_region = false;
      selected_ids = [];
      feedback = none;
    },
    [],
  )
  step s (set_enabled_filter f) = (record s { enabled_filter = f }, [])
  step s (set_page_size n) = (record s { page = 0; selected_ids = []; page_size = n }, [])
  step s (set_sort_by o) = (record s { page = 0; sort_by = o }, [])
  step s (set_group_by_region b) = (record s { group_by_region = b }, [])
  step s (toggle_selection id checked) =
      (record s { selected_ids = toggle s.selected_ids id checked }, [])
  step s (select_all nodes) =
      if is_empty nodes then (s, []) else (record s { selected_ids = map (λ n. n.id) nodes }, [])
  step s clear_selection =
      if is_empty s.selected_ids then (s, []) else (record s { selected_ids = [] }, [])
  step s (test_selected pending) = click_test_selected pending s
  step s (test_filtered pending nodes confirmed) = click_test_filtered pending nodes confirmed s
  step s (delete_selected pending confirmed) = click_delete_selected pending confirmed s
  step s (set_tags_input t) = (record s { tags_input = t }, [])
  step s (preset_tag t) = (record s { tags_input = add_preset_tag s.tags_input t }, [])
  step s (save_tags pending) =
      if pending
      then (s, [])
      else if is_empty s.selected_ids
      then (warned choose_first s, [])
      else (record s { feedback = none }, update_tags s.selected_ids s.tags_input ∷ [])
  step s (test_one testing id) = click_test_one testing id s
  step s (delete_one deleting id confirmed) = click_delete_one deleting id confirmed s
  step s (copied id) = (record s { copied_id = some id }, [])
  step s copy_timeout = (record s { copied_id = none }, [])
  step s (previous_page loading) =
      if s.page == 0 || loading || s.page_size == 0
      then (s, [])
      else (record s { page = s.page - 1 }, [])
  step s (next_page loading nodes) =
      if loading
        || is_empty nodes
        || s.page_size == 0
        || (ltb 0 s.page_size && ltb (length nodes) s.page_size)
      then (s, [])
      else (record s { page = s.page + 1 }, [])
  step s toggle_auto_refresh = (record s { auto_refresh = not s.auto_refresh }, [])
  step s open_import = (record s { is_import_modal_open = true }, [])
  step s close_import = (record s { is_import_modal_open = false }, [])
  step s (imported new skipped) = (
    record s {
      feedback = some (record {
        tone = success;
        message = str_append (counted "导入完成，新增 " new " 个节点，跳过 ") (counted "" skipped " 个重复节点。");
      });
      selected_ids = [];
      page = 0;
      is_import_modal_open = false;
    },
    invalidate_nodes ∷ [],
  )
  step s (node_deleted id) = (
    said "节点已删除。" (record s { selected_ids = remove s.selected_ids id }),
    invalidate_nodes ∷ invalidate_workspace ∷ [],
  )
  step s (nodes_deleted n) = (
    said (counted "已删除 " n " 个节点。") (record s { selected_ids = [] }),
    invalidate_nodes ∷ invalidate_workspace ∷ [],
  )
  step s (nodes_tested n) = (said (counted "测试已完成，共返回 " n " 条结果。") s, invalidate_nodes ∷ [])
  step s (all_tested n) = (said (counted "已对当前筛选的 " n " 个节点完成测速。") s, invalidate_nodes ∷ [])
  step s (tags_updated n) = (said (counted "已更新 " n " 个节点标签。") s, invalidate_nodes ∷ [])
  step s (failed thrown) = (warned (message_of "请求失败，请稍后重试。" thrown) s, [])

  unfoldable pub run : State → List Event → State
  run s [] = s
  run s (e ∷ es) = run (step s e).0 es
