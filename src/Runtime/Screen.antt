-- ===== src/Runtime/Screen.antt =====
-- components/runtime-page.tsx: what is on the screen, but for its fixed texts and its icons. `View` is
-- what the queries and the mutations tell, and `format_date` is `formatDateTime`.
pub mod Laws
use poolx.Common.{
  ℕ, Bool, true, false, not, ◌||◌, List, [], Option, none, some, String, length, map, if◌then◌else◌,
  is_empty, ltb, str_eq, or_else,
}
use poolx.Common.Text.{Text}
use poolx.Ui.{FeedbackState}
use poolx.Capability.{KernelCapability}
use poolx.Runtime.{KernelInstanceItem, RuntimeListenerItem, RuntimeStatus, RuntimeLogItem}
use poolx.Runtime.Page.{State, get_log_level_class, last_seq, supports}

pub record View : Type 0 where
  pub status_loading : Bool
  pub status_error : Bool
  pub status : Option RuntimeStatus
  pub capability : Option KernelCapability
  pub logs_loading : Bool
  pub start_pending : Bool
  pub reload_pending : Bool
  pub stop_pending : Bool

-- A button: its label, and whether it is enabled.
pub record Button : Type 0 where
  pub label : String
  pub enabled : Bool

-- The buttons of the header, in their order.
pub record Header : Type 0 where
  pub start : Button
  pub reload : Button
  pub stop : Button
  pub open_panel : Button
  pub refresh : Button

abbrev button : String → (disabled : Bool) → Button
button label disabled = record { label = label; enabled = not disabled }

unfoldable pub header : View → RuntimeStatus → State → Header
header v status s = record {
  start =
      button (if v.start_pending then "启动中..." else "启动内核") (
        v.start_pending || (status.running || not (supports (λ c. c.supports_start) v.capability)));
  reload = button (if v.reload_pending then "重载中..." else "热重载") (
      v.reload_pending
      || (not status.running || not (supports (λ c. c.supports_reload) v.capability)));
  stop =
      button (if v.stop_pending then "停止中..." else "停止内核") (v.stop_pending || not status.running);
  open_panel = button "打开 Clash 面板" (not status.running);
  refresh = button (if s.auto_refresh then "暂停刷新" else "自动刷新") false;
}

-- The message of the kernel, in red where its binary is missing.
pub data Notice : Type 0 where
  informed alarmed : String → Notice

unfoldable pub capability_notice : Option KernelCapability → Option Notice
capability_notice none = none
capability_notice (some c) =
    some (if c.binary_exists then informed c.message else alarmed c.message)

-- `text || fallback`, and the same with a text that may be missing.
abbrev text_or : String → String → String
text_or text fallback = if str_eq text "" then fallback else text

abbrev given : Option String → Option String
given none = none
given (some text) = if str_eq text "" then none else some text

abbrev date_or : (String → String) → Option String → String → String
date_or format_date date fallback = elim (given date) [ none ↦ fallback | some at ↦ format_date at ]

-- The four cards.
pub record Cards : Type 0 where
  pub process : String
  pub process_status : String
  pub controller : String
  pub controller_detail : String
  pub profile_count : ℕ
  pub listener_count : ℕ

unfoldable pub cards : RuntimeStatus → Cards
cards status = record {
  process = if status.running then "运行中" else "已停止";
  process_status = status.instance_item.status;
  controller = if status.api_healthy then "健康正常" else "未就绪";
  controller_detail =
      text_or (or_else status.api_version "")
        (text_or status.instance_item.controller_address "未配置");
  profile_count = status.profile_count;
  listener_count = status.listener_count;
}

-- The parameters of the process; no process is shown as a dash.
pub record Parameters : Type 0 where
  pub pid : Option ℕ
  pub last_action : String
  pub started : String
  pub reloaded : String
  pub work_dir : String
  pub config_path : String
  pub last_error : Option String

unfoldable pub parameters : (String → String) → KernelInstanceItem → Parameters
parameters format_date item = record {
  pid = item.pid;
  last_action = text_or item.last_action "无";
  started = date_or format_date item.last_started_at "未启动";
  reloaded = date_or format_date item.last_reloaded_at "未重载";
  work_dir = text_or item.work_dir "未生成";
  config_path = text_or item.config_path "未生成";
  last_error = given (some item.last_error);
}

-- A row of the console, with the classes of its level, and the console: the number of the last
-- entry where it is above 0, and none where there are no rows.
pub record Row : Type 0 where
  pub entry : RuntimeLogItem
  pub level_class : String

pub record Console : Type 0 where
  pub count : ℕ
  pub newest : Option ℕ
  pub scroll_label : String
  pub loading_shown : Bool
  pub rows : List Row

unfoldable pub console : (lower : Text → Text) → View → State → Console
console lower v s =
    let last = last_seq s.logs in
    record {
      count = length s.logs;
      newest = if ltb 0 last then some last else none;
      scroll_label = if s.auto_scroll then "锁定自动滚动" else "跟随最新日志";
      loading_shown = v.logs_loading;
      rows =
          map (λ item. record { entry = item; level_class = get_log_level_class lower item.level })
            s.logs;
    }

pub record Panel : Type 0 where
  pub buttons : Header
  pub feedback : Option FeedbackState
  pub notice : Option Notice
  pub summary : Cards
  pub process : Parameters
  pub listeners : List RuntimeListenerItem
  pub config_preview : Option String
  pub log : Console

pub data Screen : Type 0 where
  loading failed : Screen
  shown : Panel → Screen

unfoldable pub panel :
    (lower : Text → Text) → (String → String) → View → State → RuntimeStatus → Panel
panel lower format_date v s status = record {
  buttons = header v status s;
  feedback = s.feedback;
  notice = capability_notice v.capability;
  summary = cards status;
  process = parameters format_date status.instance_item;
  listeners = status.listeners;
  config_preview = given status.rendered_config_preview;
  log = console lower v s;
}

unfoldable pub screen : (lower : Text → Text) → (String → String) → View → State → Screen
screen lower format_date v s =
    if v.status_loading
    then loading
    else if v.status_error
    then failed
    else elim v.status [ none ↦ failed | some status ↦ shown (panel lower format_date v s status) ]
