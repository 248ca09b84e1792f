-- ===== src/Runtime/Page.antt =====
-- components/runtime-page.tsx: the state of the page, and its handlers. `pending` says that the
-- mutation behind a button runs, `status` and `capability` are the data of the two queries.
pub mod Laws
use poolx.Common.{
  ℕ, Bool, true, false, not, ◌||◌, List, [], ◌∷◌, Option, none, some, String, if◌then◌else◌,
  is_empty, get_last?,
}
use poolx.Common.Text.{Text, units, includes}
use poolx.Ui.{FeedbackState, success, danger, Thrown, message_of}
use poolx.Capability.{KernelCapability}
use poolx.Runtime.{RuntimeStatus, RuntimeLogItem}
use poolx.Runtime.Merge.{merge_logs}

pub record State : Type 0 where
  pub feedback : Option FeedbackState
  pub logs : List RuntimeLogItem
  pub auto_refresh : Bool
  pub auto_scroll : Bool

abbrev pub initial : State
initial = record { feedback = none; logs = []; auto_refresh = true; auto_scroll = true }

-- What a handler asks of the outside; `fetch_logs n` is `getRuntimeLogs(n, 100)`.
pub data Effect : Type 0 where
  start_runtime stop_runtime reload_runtime invalidate_status open_panel : Effect
  fetch_logs : ℕ → Effect

abbrev pub supports : (KernelCapability → Bool) → Option KernelCapability → Bool
supports field none = false
supports field (some c) = field c

-- `lastSeq`.
unfoldable pub last_seq : List RuntimeLogItem → ℕ
last_seq logs = elim (get_last? logs) [ none ↦ 0 | some item ↦ item.seq ]

-- The four buttons of the header; a disabled button does nothing.
unfoldable pub click_start :
    Bool → RuntimeStatus → Option KernelCapability → State → State × List Effect
click_start pending status capability s =
    if pending || status.running || not (supports (λ c. c.supports_start) capability)
    then (s, [])
    else (record s { feedback = none }, start_runtime ∷ [])

unfoldable pub click_reload :
    Bool → RuntimeStatus → Option KernelCapability → State → State × List Effect
click_reload pending status capability s =
    if pending || not status.running || not (supports (λ c. c.supports_reload) capability)
    then (s, [])
    else (record s { feedback = none }, reload_runtime ∷ [])

unfoldable pub click_stop : Bool → RuntimeStatus → State → State × List Effect
click_stop pending status s =
    if pending || not status.running
    then (s, [])
    else (record s { feedback = none }, stop_runtime ∷ [])

unfoldable pub click_open_panel : RuntimeStatus → State → State × List Effect
click_open_panel status s = if not status.running then (s, []) else (s, open_panel ∷ [])

abbrev said : String → State → State
said text s = record s { feedback = some (record { tone = success; message = text }) }

abbrev failed : Thrown → State → State
failed thrown s = record s {
  feedback = some (record { tone = danger; message = message_of "运行控制请求失败，请稍后重试。" thrown });
}

-- What happens to the page.
pub data Event : Type 0 where
  -- `logsQuery` has data; a poll has an answer, or failed; the log request behind a start has one.
  query_loaded poll_answered start_logs_answered : List RuntimeLogItem → Event
  poll_failed start_succeeded stop_succeeded reload_succeeded : Event
  -- `onError` of one of the three mutations.
  mutation_failed : Thrown → Event
  toggle_auto_refresh toggle_auto_scroll clear_logs : Event

unfoldable pub step : State → Event → State × List Effect
unfolding last_seq
step s (query_loaded items) = (record s { logs = items }, [])
step s (poll_answered items) =
    if is_empty items then (s, []) else (record s { logs = merge_logs s.logs items }, [])
step s (start_logs_answered items) = (record s { logs = items }, [])
step s poll_failed = (s, [])
step s start_succeeded = (said "Mihomo 内核已成功启动。" s, invalidate_status ∷ fetch_logs 0 ∷ [])
step s stop_succeeded = (said "Mihomo 内核已安全停止。" s, invalidate_status ∷ [])
step s reload_succeeded = (said "Mihomo 已执行配置热重载。" s, invalidate_status ∷ [])
step s (mutation_failed thrown) = (failed thrown s, [])
step s toggle_auto_refresh = (record s { auto_refresh = not s.auto_refresh }, [])
step s toggle_auto_scroll = (record s { auto_scroll = not s.auto_scroll }, [])
step s clear_logs = (record s { logs = [] }, [])

-- A tick of the polling timer, which runs while `autoRefresh` is set.
unfoldable pub poll : State → List Effect
unfolding last_seq
poll s = if not s.auto_refresh then [] else fetch_logs (last_seq s.logs) ∷ []

unfoldable pub run : State → List Event → State
run s [] = s
run s (e ∷ es) = run (step s e).0 es

-- `getLogLevelClass`; `lower` is `toLowerCase`.
unfoldable pub get_log_level_class : (Text → Text) → Text → String
get_log_level_class lower level =
    let l = lower level in
    if includes l (units "err") || includes l (units "fatal")
    then "text-rose-400 bg-rose-500/10"
    else if includes l (units "warn")
    then "text-amber-400 bg-amber-500/10"
    else if includes l (units "info")
    then "text-sky-400 bg-sky-500/10"
    else "text-slate-400 bg-slate-500/10"
