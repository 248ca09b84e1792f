-- ===== src/Workspace/Page.antt =====
-- components/workspace-page.tsx: the state of the page, its handlers and its effects. `pending` says
-- that the mutation behind a button runs, `confirmed` is the answer to `window.confirm`.
pub mod Laws
use poolx.Common.{
  ℕ, Bool, true, false, not, ◌&&◌, ◌||◌, List, [], ◌∷◌, Option, none, some, String, if◌then◌else◌,
  ◌==◌, nat_eq,
}
use poolx.Common.Text.{Text}
use poolx.Ui.{FeedbackState, success, danger, Thrown, message_of}
use poolx.Capability.{KernelCapability}
use poolx.Workspace.{
  RuntimeConfigItem, PortProfileWithNodes, PortProfilePayload, PortProfilePreview,
  PortProfileTemplateItem,
}
use poolx.Workspace.Payload.{
  default_payload, to_payload, to_profile_payload, template_payload, Edit, edit,
}

pub record State : Type 0 where
  pub selected_profile_id : Option ℕ
  pub is_creating : Bool
  pub payload : PortProfilePayload
  pub node_search : Text
  pub feedback : Option FeedbackState
  pub preview : Option PortProfilePreview
  pub template_name : Text

abbrev pub initial : State
initial = record {
  selected_profile_id = none;
  is_creating = false;
  payload = default_payload;
  node_search = [];
  feedback = none;
  preview = none;
  template_name = [];
}

-- The requests of the mutations, and the queries that are invalidated.
pub data Effect : Type 0 where
  create_port_profile preview_port_profile : PortProfilePayload → Effect
  update_port_profile : ℕ → PortProfilePayload → Effect
  delete_port_profile save_runtime_config delete_template : ℕ → Effect
  save_template : Text → PortProfilePayload → Effect
  invalidate_profiles invalidate_templates : Effect
  invalidate_profile : Option ℕ → Effect

abbrev pub Result : Type 0
Result = State × List Effect

-- `!isCreating && selectedProfileId`: the profile that the form edits. An id of 0 is falsy.
unfoldable pub edited_profile : State → Option ℕ
edited_profile s = elim s.selected_profile_id [
  | none ↦ none
  | some id ↦ if s.is_creating || id == 0 then none else some id
]

-- The profile whose snapshot can be saved: `selectedProfileId && preview`.
unfoldable pub snapshot_profile : State → Option ℕ
snapshot_profile s = elim s.selected_profile_id [
  | none ↦ none
  | some id ↦ elim s.preview [ none ↦ none | some _ ↦ if id == 0 then none else some id ]
]

-- The preview of the effect on `detailQuery.data`.
unfoldable pub preview_of : PortProfileWithNodes → Option PortProfilePreview
preview_of item = elim item.runtime [
  | none ↦ none
  | some r ↦ some (record {
    profile = item.profile;
    node_ids = item.node_ids;
    nodes = item.nodes;
    kernel_type = r.kernel_type;
    checksum = r.checksum;
    content = r.rendered_config;
  })
]

-- The effect on `[isCreating, profilesQuery.data, selectedProfileId]`.
unfoldable pub choose_profile : List PortProfileWithNodes → State → State
choose_profile [] s = s
choose_profile (item ∷ _) s = elim s.selected_profile_id [
  | none ↦ if s.is_creating then s else record s { selected_profile_id = some item.profile.id }
  | some _ ↦ s
]

-- `setSelectedProfileId((current) => (current === id ? null : current))`.
unfoldable pub forget : ℕ → Option ℕ → Option ℕ
forget id none = none
forget id (some current) = if current == id then none else some current

abbrev said : String → State → State
said text s = record s { feedback = some (record { tone = success; message = text }) }

abbrev quiet : State → State
quiet s = record s { feedback = none }

abbrev supports_templates : Option KernelCapability → Bool
supports_templates none = false
supports_templates (some c) = c.supports_templates

-- What happens to the page.
pub data Event : Type 0 where
  create_new : Event
  select_profile : ℕ → Event
  switch_include : (pending : Bool) → PortProfileWithNodes → (checked : Bool) → Event
  set_template_name set_node_search : Text → Event
  click_save_template : (pending : Bool) → Option KernelCapability → Event
  apply_template : PortProfileTemplateItem → Event
  click_delete_template : (pending : Bool) → ℕ → Event
  edited : Edit → Event
  click_preview click_save click_create click_save_snapshot : (pending : Bool) → Event
  click_delete : (pending : Bool) → (confirmed : Bool) → Event
  -- The two effects, with the data of their queries.
  profiles_changed : List PortProfileWithNodes → Event
  detail_changed : PortProfileWithNodes → Event
  -- `onSuccess` and `onError` of the mutations.
  created : PortProfileWithNodes → Event
  deleted : ℕ → Event
  included : PortProfileWithNodes → (checked : Bool) → Event
  previewed : PortProfilePreview → Event
  updated snapshot_saved template_saved template_deleted : Event
  failed : Thrown → Event

unfoldable pub step : State → Event → Result
step s create_new = (
  record s {
    is_creating = true;
    selected_profile_id = none;
    payload = default_payload;
    preview = none;
    feedback = none;
  },
  [],
)
step s (select_profile id) =
    (record s { is_creating = false; selected_profile_id = some id; feedback = none }, [])
step s (switch_include pending item checked) =
    let chosen = to_profile_payload item in
    if pending then (s, []) else (
      quiet s,
      update_port_profile item.profile.id (record chosen { include_in_runtime = checked }) ∷ [],
    )
step s (set_template_name t) = (record s { template_name = t }, [])
step s (set_node_search t) = (record s { node_search = t }, [])
step s (click_save_template pending capability) =
    if pending || not (supports_templates capability)
    then (s, [])
    else (quiet s, save_template s.template_name (to_payload s.payload) ∷ [])
step s (apply_template item) = (
  record s {
    is_creating = true;
    selected_profile_id = none;
    preview = none;
    payload = template_payload item;
  },
  [],
)
step s (click_delete_template pending id) =
    if pending then (s, []) else (s, delete_template id ∷ [])
step s (edited e) = (record s { payload = edit e s.payload }, [])
step s (click_preview pending) =
    if pending then (s, []) else (quiet s, preview_port_profile (to_payload s.payload) ∷ [])
step s (click_save pending) = elim (edited_profile s) [
  | none ↦ (s, [])
  | some id ↦
      if pending then (s, []) else (quiet s, update_port_profile id (to_payload s.payload) ∷ [])
]
step s (click_create pending) = elim (edited_profile s) [
  | none ↦ if pending then (s, []) else (quiet s, create_port_profile (to_payload s.payload) ∷ [])
  | some id ↦ (s, [])
]
step s (click_save_snapshot pending) = elim (snapshot_profile s) [
  | none ↦ (s, [])
  | some id ↦ if pending then (s, []) else (quiet s, save_runtime_config id ∷ [])
]
step s (click_delete pending confirmed) = elim (edited_profile s) [
  | none ↦ (s, [])
  | some id ↦ if pending || not confirmed then (s, []) else (quiet s, delete_port_profile id ∷ [])
]
step s (profiles_changed items) = (choose_profile items s, [])
step s (detail_changed item) =
    (record s { payload = to_profile_payload item; preview = preview_of item }, [])
step s (created result) = (
  said "端口配置已创建。" (record s { is_creating = false; selected_profile_id = some result.profile.id }),
  invalidate_profiles ∷ [],
)
step s (deleted id) = (
  said "端口配置已删除。" (record s {
    preview = none;
    selected_profile_id = forget id s.selected_profile_id;
    payload = default_payload;
  }),
  invalidate_profiles ∷ [],
)
step s (included item checked) = (
  said (if checked then "端口配置已加入最终配置。" else "端口配置已移出最终配置。") s,
  invalidate_profiles ∷ invalidate_profile (some item.profile.id) ∷ [],
)
step s (previewed result) = (said "配置片段预览已生成。" (record s { preview = some result }), [])
step s updated =
    (said "端口配置已保存。" s, invalidate_profiles ∷ invalidate_profile s.selected_profile_id ∷ [])
step s snapshot_saved =
    (said "当前片段已保存为最新快照。" s, invalidate_profiles ∷ invalidate_profile s.selected_profile_id ∷ [])
step s template_saved =
    (said "工作台模板已保存。" (record s { template_name = [] }), invalidate_templates ∷ [])
step s template_deleted = (said "工作台模板已删除。" s, invalidate_templates ∷ [])
step s (failed thrown) = (
  record s {
    feedback = some (record { tone = danger; message = message_of "请求失败，请稍后重试。" thrown });
  },
  [],
)

unfoldable pub run : State → List Event → State
run s [] = s
run s (e ∷ es) = run (step s e).0 es
