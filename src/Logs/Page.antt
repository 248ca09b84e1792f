-- ===== src/Logs/Page.antt =====
-- components/logs-page.tsx and api/logs.ts: the state of the page, its handlers, and what it asks of
-- the server. The format of a line and the search are parameters of the handlers that use them.
pub mod Laws
use Prim.Native.String.{◌++◌ as str_append}
use poolx.Common.{
  ℕ, ◌+◌, Bool, true, false, not, ◌&&◌, List, [], ◌∷◌, ◌++◌, Option, none, some, String, map,
  length, ltb, if◌then◌else◌, is_empty, get_last?,
}
use poolx.Common.Text.{Text, units, trim, join}
use poolx.Ui.{Thrown, message_of}
use poolx.Logs.{AppLogItem}
use poolx.Logs.Merge.{merge_logs}

-- `ClassificationFilter`.
pub data ClassificationFilter : Type 0 where
  all_logs only_system only_business only_security : ClassificationFilter

-- The argument of `getLogs`.
pub record GetLogsParams : Type 0 where
  pub classification : ClassificationFilter
  pub after_id : ℕ
  pub limit : ℕ

pub data ParamValue : Type 0 where
  number : ℕ → ParamValue
  one_of : ClassificationFilter → ParamValue

abbrev is_all : ClassificationFilter → Bool
is_all all_logs = true
is_all _ = false

-- The query of `getLogs`.
unfoldable pub log_query : GetLogsParams → List (String × ParamValue)
log_query params =
    ("limit", number params.limit)
    ∷ ((if ltb 0 params.after_id then ("after_id", number params.after_id) ∷ [] else [])
        ++ (if is_all params.classification
            then []
            else ("classification", one_of params.classification) ∷ []))

pub record State : Type 0 where
  pub classification : ClassificationFilter
  pub search : Text
  pub logs : List AppLogItem
  pub is_paused : Bool
  pub feedback : String

abbrev pub initial : State
initial = record {
  classification = all_logs;
  search = [];
  logs = [];
  is_paused = false;
  feedback = "";
}

pub data Effect : Type 0 where
  get_logs : GetLogsParams → Effect
  write_clipboard download : Text → Effect

-- `lastLogId`.
unfoldable pub last_log_id : List AppLogItem → ℕ
last_log_id logs = elim (get_last? logs) [ none ↦ 0 | some item ↦ item.id ]

-- The request for entries after those shown, of the polling timer and of the refresh button.
unfoldable pub next_logs : State → Effect
next_logs s =
    get_logs
      (record { classification = s.classification; after_id = last_log_id s.logs; limit = 100 })

unfoldable pub poll : State → List Effect
poll s = if s.is_paused then [] else next_logs s ∷ []

abbrev keep_matching :
    Option Bool → AppLogItem → Option (List AppLogItem) → Option (List AppLogItem)
keep_matching none item rest = none
keep_matching (some keep) item none = none
keep_matching (some keep) item (some rest) = some (if keep then item ∷ rest else rest)

unfoldable pub filter_logs : (AppLogItem → Option Bool) → List AppLogItem → Option (List AppLogItem)
filter_logs test [] = some []
filter_logs test (item ∷ items) = keep_matching (test item) item (filter_logs test items)

pub data Event : Type 0 where
  set_classification : ClassificationFilter → Event
  set_search : Text → Event
  toggle_pause click_refresh click_copy copied click_download : Event
  -- The data of the query, the answers of the polling timer and of the refresh button.
  query_loaded poll_answered refresh_answered : List AppLogItem → Event
  poll_failed : Event
  refresh_failed : Thrown → Event

module _ (lower : Text → Text) (matches : AppLogItem → Text → Option Bool)
    (format : AppLogItem → Text) (show : ℕ → String) where
  -- `filteredLogs`; none where the search throws.
  unfoldable pub filtered_logs : State → Option (List AppLogItem)
  filtered_logs s =
      let keyword = lower (trim s.search) in
      if is_empty keyword then some s.logs else filter_logs (λ item. matches item keyword) s.logs

  abbrev content_of : List AppLogItem → Text
  content_of items = join (units "\n") (map format items)

  -- `handleCopy`.
  unfoldable pub handle_copy : State → Option (List AppLogItem) → State × List Effect
  handle_copy s none = (s, [])
  handle_copy s (some items) =
      if is_empty (content_of items)
      then (record s { feedback = "当前没有可复制的日志。" }, [])
      else (s, write_clipboard (content_of items) ∷ [])

  -- `handleDownload`.
  unfoldable pub handle_download : State → Option (List AppLogItem) → State × List Effect
  handle_download s none = (s, [])
  handle_download s (some items) =
      if is_empty items
      then (record s { feedback = "当前没有可下载的日志。" }, [])
      else (record s { feedback = "日志文件已生成。" }, download (content_of items) ∷ [])

  unfoldable pub step : State → Event → State × List Effect
  step s (set_classification c) = (record s { classification = c }, [])
  step s (set_search t) = (record s { search = t }, [])
  step s toggle_pause = (record s { is_paused = not s.is_paused }, [])
  step s click_refresh = (record s { feedback = "" }, next_logs s ∷ [])
  step s click_copy = handle_copy s (filtered_logs s)
  step s copied = (record s { feedback = "日志内容已复制到剪贴板。" }, [])
  step s click_download = handle_download s (filtered_logs s)
  step s (query_loaded items) = (record s { logs = items }, [])
  step s (poll_answered items) =
      if is_empty items then (s, []) else (record s { logs = merge_logs s.logs items }, [])
  step s (refresh_answered items) =
      if is_empty items then (record s { feedback = "当前没有新的日志。" }, []) else (
        record s {
          logs = merge_logs s.logs items;
          feedback = str_append "已同步 " (str_append (show (length items)) " 条新日志。");
        },
        [],
      )
  step s poll_failed = (s, [])
  step s (refresh_failed thrown) = (record s { feedback = message_of "日志请求失败，请稍后重试。" thrown }, [])

  unfoldable pub run : State → List Event → State
  run s [] = s
  run s (e ∷ es) = run (step s e).0 es
