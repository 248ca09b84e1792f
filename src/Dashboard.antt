-- ===== src/Dashboard.antt =====
-- server/web/features/dashboard/components/dashboard-overview.tsx: the statistics of the nodes, and
-- the buttons. `upper` is `toUpperCase`, `percent a b` is `Math.round((a / b) * 100)` in doubles, and
-- `show` prints a number.
pub mod Laws
pub mod Counts
pub mod Screen
pub mod Bars
use Prim.Native.String.{◌++◌ as str_append}
use poolx.Common.{
  ℕ, zero, suc, ◌+◌, ◌*◌, ◌/◌, Bool, true, false, not, ◌&&◌, ◌||◌, List, [], ◌∷◌, Option, none,
  some, String, length, filter, take, if◌then◌else◌, is_empty, ltb, str_eq, ◌==◌, list_eq, nat_eq,
}
use poolx.Common.Text.{Text, units}
use poolx.Ui.{FeedbackState, success, danger, info, Thrown, message_of}
use poolx.Nodes.{ProxyNodeItem, NodeTestExecution}
use poolx.Nodes.Region.Grouping.{RegionGroup, group_nodes_by_region}
use poolx.Runtime.{RuntimeStatus}

-- The tests of the three filters.
abbrev pub is_tested : ProxyNodeItem → Bool
is_tested n = not (str_eq n.last_test_status "unknown")

abbrev pub is_passed : ProxyNodeItem → Bool
is_passed n = str_eq n.last_test_status "success"

abbrev pub is_failed : ProxyNodeItem → Bool
is_failed n = str_eq n.last_test_status "failed"

-- The loop over the latencies: their sum and their count.
unfoldable pub add_latencies : ℕ × ℕ → List ProxyNodeItem → ℕ × ℕ
add_latencies sums [] = sums
add_latencies (total, count) (node ∷ nodes) = elim node.last_latency_ms [
  | none ↦ add_latencies (total, count) nodes
  | some zero ↦ add_latencies (total, count) nodes
  | some (suc ms) ↦ add_latencies (total + suc ms, count + 1) nodes
]

-- `Math.round(latencySum / latencyCount)`.
unfoldable pub average : ℕ × ℕ → Option ℕ
average (total, zero) = none
average (total, suc n) = some ((2 * total + suc n) / (2 * suc n))

-- `protoMap[t] = (protoMap[t] || 0) + 1`.
unfoldable pub count_in : List (Text × ℕ) → Text → List (Text × ℕ)
count_in [] key = (key, 1) ∷ []
count_in ((k, n) ∷ counts) key =
    if k == key then (k, n + 1) ∷ counts else (k, n) ∷ count_in counts key

unfoldable pub protocol_of : (Text → Text) → ProxyNodeItem → Text
protocol_of upper node = upper (if is_empty node.type then units "other" else node.type)

unfoldable pub count_protocols :
    (Text → Text) → List (Text × ℕ) → List ProxyNodeItem → List (Text × ℕ)
count_protocols upper counts [] = counts
count_protocols upper counts (node ∷ nodes) =
    count_protocols upper (count_in counts (protocol_of upper node)) nodes

pub record Stats : Type 0 where
  pub total_nodes : ℕ
  pub enabled_nodes : ℕ
  pub tested_nodes : ℕ
  pub passed_nodes : ℕ
  pub failed_nodes : ℕ
  pub health_rate : ℕ
  pub avg_latency : Option ℕ
  pub protocol_counts : List (Text × ℕ)
  pub region_groups : List RegionGroup

unfoldable pub health : (ℕ → ℕ → ℕ) → (total tested passed : ℕ) → ℕ
health percent total tested passed =
    if ltb 0 tested then percent passed tested else (if ltb 0 total then 0 else 100)

unfoldable pub stats : (Text → Text) → (ℕ → ℕ → ℕ) → List ProxyNodeItem → Stats
stats upper percent nodes = record {
  total_nodes = length nodes;
  enabled_nodes = length (filter (λ n. n.enabled) nodes);
  tested_nodes = length (filter is_tested nodes);
  passed_nodes = length (filter is_passed nodes);
  failed_nodes = length (filter is_failed nodes);
  health_rate =
      health percent (length nodes) (length (filter is_tested nodes))
        (length (filter is_passed nodes));
  avg_latency = average (add_latencies (0, 0) (filter is_passed nodes));
  protocol_counts = count_protocols upper [] nodes;
  region_groups = take 6 (group_nodes_by_region nodes);
}

-- The share of a region in the bar of its group.
unfoldable pub share : (ℕ → ℕ → ℕ) → Stats → RegionGroup → ℕ
share percent s group =
    if ltb 0 s.total_nodes then percent (length group.nodes) s.total_nodes else 0

-- The requests, and what is written to the cache of react-query.
pub data Effect : Type 0 where
  start stop reload test_all : Effect
  set_status : RuntimeStatus → Effect
  invalidate_runtime invalidate_nodes open_panel : Effect

-- The buttons, with whether the mutation behind one runs, and the ends of the mutations.
pub data Event : Type 0 where
  start_clicked stop_clicked reload_clicked : (pending : Bool) → Event
  test_clicked : (pending : Bool) → (confirmed : Bool) → Event
  panel_clicked : Event
  started stopped reloaded : RuntimeStatus → Event
  all_tested : List NodeTestExecution → Event
  start_failed stop_failed reload_failed test_failed : Thrown → Event

-- What the buttons depend on, `isRunning` and `totalNodes`, and the step of the feedback.
module _ (show : ℕ → String) (is_running : Bool) (total_nodes : ℕ) where
  abbrev done : String → RuntimeStatus → Option FeedbackState × List Effect
  done message status = (
    some (record { tone = success; message = message }),
    set_status status ∷ invalidate_runtime ∷ [],
  )

  abbrev lost : String → Thrown → Option FeedbackState × List Effect
  lost fallback error = (some (record { tone = danger; message = message_of fallback error }), [])

  abbrev only : Bool → Effect → Option FeedbackState → Option FeedbackState × List Effect
  only allowed effect s = (s, if allowed then effect ∷ [] else [])

  unfoldable pub step : Option FeedbackState → Event → Option FeedbackState × List Effect
  step s (start_clicked pending) = only (not is_running && not pending) start s
  step s (stop_clicked pending) = only (is_running && not pending) stop s
  step s (reload_clicked pending) = only (is_running && not pending) reload s
  step s (test_clicked pending confirmed) =
      only (not pending && (ltb 0 total_nodes && confirmed)) test_all s
  step s panel_clicked = only is_running open_panel s
  step s (started status) = done "Mihomo 内核启动成功。" status
  step s (stopped status) = (
    some (record { tone = info; message = "Mihomo 内核已停止。" }),
    set_status status ∷ invalidate_runtime ∷ [],
  )
  step s (reloaded status) = done "Mihomo 内核配置热重载成功。" status
  step s (all_tested results) =
      let passed = length (filter (λ r. str_eq r.status "success") results) in
      (
        some (record {
          tone = success;
          message = str_append "全量测速完成：共测试 " (
              str_append (show (length results))
                (str_append " 个节点，成功 " (str_append (show passed) " 个。")));
        }),
        invalidate_nodes ∷ [],
      )
  step s (start_failed error) = lost "启动内核失败。" error
  step s (stop_failed error) = lost "停止内核失败。" error
  step s (reload_failed error) = lost "热重载失败。" error
  step s (test_failed error) = lost "测速请求失败。" error
