-- ===== src/Tests/Overview.antt =====
-- The overview, the dialog for upgrades, and the formats of sizes and times at concrete values.
use poolx.Common.{
  ℕ, suc, ◌+◌, ◌*◌, ◌/◌, ◌^◌, ◌≤◌, ◌<◌, true, false, List, [], ◌∷◌, Option, none, some, String, ◌≡◌,
  refl, arith, length, map, All, ◌⊎◌,
}
use native.Mathlib.Nat.{mul-div-le, lt-mul-div-succ}
use poolx.Common.Int.{pos, negsuc}
use poolx.Common.Text.{Text, units, starts_with}
use poolx.Nodes.{ProxyNodeItem}
use poolx.Dashboard.{stats, average, add_latencies, health}
use poolx.Common.Int.{parse_int}
use poolx.Common.Number.{print, print_int, pad_start, digits_with}
use poolx.Dashboard.Counts.{count_of, nodes_of_protocol, DistinctKeys, protocol_counts-count_of}
use poolx.Dashboard.Screen.{health_note, all_connected}
use poolx.Dates.Stamp.{DateParts, format_date_time_with_milliseconds}
use poolx.Dates.Stamp.Laws.{fields_of_stamp, numbers_of, fields_of_stamp-format}
use poolx.Dashboard.Laws.{IsNearest, sum_of, stats-bounds}
use poolx.Metrics.{last_index, divide, number, format_bytes, digits_of, goes_on}
use poolx.Metrics.Laws.{format_bytes-unit}
use poolx.Dates.{
  format_relative_time, shown, year, from_seconds, round_div, from_minutes, from_hours, from_days,
  from_months,
}
use poolx.Dates.Laws.{IsSuited, format_relative_time-IsSuited}
use poolx.Update.{
  View, stable, upgrade, upgrade_clicked, step, websocket_url, format_log_level, pad_end,
  upgrade_enabled,
}
use poolx.Update.Laws.{IsCallable, step-IsCallable}

abbrev node : (status : String) → Option ℕ → ProxyNodeItem
node status latency = record {
  id = 1;
  source_config_id = 1;
  source_config_name = [];
  name = units "HK 01";
  type = units "vmess";
  server = [];
  port = 443;
  tags = [];
  metadata_json = "";
  enabled = true;
  last_test_status = status;
  last_latency_ms = latency;
  last_test_error = none;
  last_tested_at = none;
  created_at = "";
  updated_at = "";
}

abbrev nodes : List ProxyNodeItem
nodes =
    node "success" (some 80)
    ∷ node "success" (some 121)
    ∷ node "failed" none
    ∷ node "unknown" none
    ∷ []

abbrev upper : Text → Text
upper s = s

-- 80 and 121 milliseconds are 101 on average, and 2 of 3 are 67 per cent.
abbrev percent : ℕ → ℕ → ℕ
percent a b = (200 * a + b) / (2 * b)

nodes-average : (stats upper percent nodes).avg_latency ≡ some 101
unfolding stats average add_latencies
nodes-average = refl

nodes-health : (stats upper percent nodes).health_rate ≡ 67
unfolding stats health
nodes-health = refl

percent-IsNearest : IsNearest percent
percent-IsNearest a b h =
    let low : 2 * b * percent a b ≤ 200 * a + b = mul-div-le (200 * a + b) (2 * b) in
    let positive : 0 < 2 * b = omega (arith, h) in
    let high : 200 * a + b < 2 * b * (percent a b + 1) = lt-mul-div-succ (200 * a + b) positive in
    (omega (arith, low), omega (arith, high))

stats-bounds_example :
    let s = stats upper percent nodes in
    (s.enabled_nodes ≤ s.total_nodes)
    × (s.tested_nodes ≤ s.total_nodes)
    × (s.passed_nodes + s.failed_nodes ≤ s.tested_nodes)
    × (s.health_rate ≤ 100)
    × ((a : ℕ) → s.avg_latency ≡ some a → (1 ≤ a) × (a ≤ 121))
    × (sum_of s.protocol_counts ≡ s.total_nodes)
stats-bounds_example =
    stats-bounds upper percent nodes 121 percent-IsNearest
      ((λ ms e. ground (arith, e)), ((λ ms e. ground (arith, e)), tt))

format_bytes-unit_example :
    (index : ℕ) × (digits : ℕ) × (format_bytes "—" "0 B" (some 5242880)
      ≡ number 5242880 index digits)
    × (index ≤ last_index)
    × ((index ≡ 0) ⊎ (1024 ^ index ≤ 5242880))
    × (index < last_index → 5242880 < 1024 ^ suc index)
    × ((extra : ℕ) → divide (last_index + extra) 5242880 0 ≡ index)
format_bytes-unit_example = format_bytes-unit "—" "0 B" 5242880 (omega arith)

megabytes : format_bytes "—" "0 B" (some 5242880) ≡ number 5242880 2 1
unfolding format_bytes divide digits_of goes_on
megabytes = refl

year-ago : format_relative_time (some (negsuc 31535999999)) ≡ shown (negsuc 0) year
unfolding format_relative_time from_seconds round_div from_minutes from_hours from_days from_months
year-ago = refl

format_relative_time-IsSuited_example : IsSuited (format_relative_time (some (negsuc 31535999999)))
format_relative_time-IsSuited_example = format_relative_time-IsSuited (negsuc 31535999999)

websocket-urls :
    (websocket_url (units "https://a/api/x") false (units "b") ≡ units "wss://a/api/x")
    × (websocket_url (units "/api/x") true (units "b") ≡ units "wss://b/api/x")
unfolding websocket_url starts_with
websocket-urls = (refl, refl)

info-padded : format_log_level upper [] ≡ units "info    "
unfolding format_log_level pad_end
info-padded = refl

abbrev view : View
view = record {
  release = some (record {
    tag_name = units "v2";
    body = [];
    html_url = [];
    published_at = [];
    channel = stable;
    prerelease = false;
    current_version = units "v1";
    has_update = true;
    upgrade_supported = true;
    in_progress = false;
    upgrade_status = "idle";
    upgrade_logs = [];
  });
  selected_channel = stable;
  uploaded_binary = none;
  is_loading = false;
  has_release_error = false;
  can_upgrade = true;
  is_checking = false;
  is_upgrading = false;
  is_uploading_binary = false;
  is_confirming_manual_upgrade = false;
}

-- The files are numbers here.
abbrev file : Option ℕ
file = some 3

upgrade-called : (step view file upgrade_clicked).1 ≡ upgrade ∷ []
unfolding step upgrade_enabled
upgrade-called = refl

step-IsCallable_example : All (IsCallable view file) (step view file upgrade_clicked).1
step-IsCallable_example = step-IsCallable view file upgrade_clicked

protocol_counts-count_of_example :
    DistinctKeys (stats upper percent nodes).protocol_counts
    × ((key : Text)
        → count_of key (stats upper percent nodes).protocol_counts
          ≡ length (nodes_of_protocol upper key nodes))
protocol_counts-count_of_example = protocol_counts-count_of upper percent nodes

-- Of the nodes that were never tested, the overview says that all are connected.
untested_note : health_note (stats upper percent (node "unknown" none ∷ [])) ≡ all_connected
unfolding health_note stats
untested_note = refl

abbrev evening : DateParts
evening = record {
  full_year = pos 2026;
  month = 2;
  date = 7;
  hours = 19;
  minutes = 5;
  seconds = 0;
  milliseconds = 42;
}

evening_text : format_date_time_with_milliseconds (some evening) ≡ units "2026-03-07 19:05:00.042"
unfolding format_date_time_with_milliseconds print print_int pad_start digits_with
evening_text = refl

-- A date before the year 0, whose text begins with a minus.
abbrev ancient : DateParts
ancient = record evening { full_year = negsuc 11 }

ancient_text : format_date_time_with_milliseconds (some ancient) ≡ units "-12-03-07 19:05:00.042"
unfolding format_date_time_with_milliseconds print print_int pad_start digits_with
ancient_text = refl

fields_of_stamp-format_example :
    map parse_int (fields_of_stamp (format_date_time_with_milliseconds (some ancient)))
    ≡ numbers_of ancient
fields_of_stamp-format_example = fields_of_stamp-format ancient
