-- ===== src/Tests/Runtime.antt =====
-- The runtime page at concrete entries and events.
use poolx.Common.{ℕ, true, false, List, [], ◌∷◌, some, none, ◌≡◌, ◌≢◌, refl, arith, nat_eq}
use poolx.Common.Text.{units}
use poolx.Capability.{KernelCapability}
use poolx.Runtime.{RuntimeStatus, RuntimeLogItem}
use poolx.Runtime.Page.{
  State, initial, click_start, click_reload, click_stop, click_open_panel, Event, query_loaded,
  poll_answered, toggle_auto_scroll, clear_logs, run,
}
use poolx.Runtime.Screen.{View, Panel, cards, panel, screen}
use poolx.Runtime.Screen.Laws.{Agrees, IsReadable, screen-run}

abbrev entry : ℕ → RuntimeLogItem
entry n = record {
  seq = n;
  stream = "stdout";
  level = units "info";
  message = "m";
  created_at = "";
}

abbrev shown : List RuntimeLogItem
shown = entry 1 ∷ entry 2 ∷ []

abbrev answer : List RuntimeLogItem
answer = entry 2 ∷ entry 3 ∷ []

abbrev stopped : RuntimeStatus
stopped = record {
  instance_item = record {
    id = 1;
    kernel_type = "mihomo";
    status = "stopped";
    pid = none;
    work_dir = "";
    config_path = "";
    controller_address = "";
    active_config_checksum = "";
    active_profile_count = 0;
    active_listener_count = 0;
    last_action = "";
    last_error = "";
    last_started_at = none;
    last_stopped_at = none;
    last_reloaded_at = none;
    created_at = "";
    updated_at = "";
  };
  running = false;
  api_healthy = false;
  api_version = none;
  profile_count = 0;
  listener_count = 0;
  listeners = [];
  rendered_config_preview = none;
}

abbrev mihomo : KernelCapability
mihomo = record {
  kernel_type = "mihomo";
  binary_configured = true;
  binary_exists = true;
  supports_start = true;
  supports_stop = true;
  supports_reload = true;
  supports_templates = true;
  supports_node_tags = true;
  supports_auto_refresh = true;
  supports_node_test_cache = true;
  supports_node_test_batch = true;
  supported_strategies = [];
  runtime_controller_type = "http";
  message = "";
}

abbrev loaded : State
loaded = record { feedback = none; logs = shown; auto_refresh = true; auto_scroll = true }

abbrev events : List Event
events =
    query_loaded shown
    ∷ toggle_auto_scroll
    ∷ poll_answered answer
    ∷ clear_logs
    ∷ poll_answered answer
    ∷ []

abbrev view : View
view = record {
  status_loading = false;
  status_error = false;
  status = some stopped;
  capability = some mihomo;
  logs_loading = false;
  start_pending = false;
  reload_pending = false;
  stop_pending = false;
}

abbrev at_the_end : Panel
at_the_end = panel (λ level. level) (λ date. date) view (run initial events) stopped

screen-run_example :
    (status : RuntimeStatus) × (some stopped ≡ some status)
    × (at_the_end.summary ≡ cards status)
    × (at_the_end.listeners ≡ status.listeners)
    × Agrees at_the_end.buttons.start.enabled
        (click_start false status (some mihomo) (run initial events))
    × Agrees at_the_end.buttons.reload.enabled
        (click_reload false status (some mihomo) (run initial events))
    × Agrees at_the_end.buttons.stop.enabled (click_stop false status (run initial events))
    × Agrees at_the_end.buttons.open_panel.enabled (click_open_panel status (run initial events))
    × IsReadable at_the_end.log
unfolding screen
screen-run_example =
    screen-run (λ level. level) (λ date. date) view events at_the_end
      (
        (omega arith, (refl, (refl, tt))),
        (tt, ((omega arith, (refl, (refl, tt))), (tt, ((omega arith, (refl, (refl, tt))), tt)))),
      )
      refl

start_sends : (click_start false stopped (some mihomo) loaded).1 ≢ []
unfolding click_start
start_sends = λ e. cc
