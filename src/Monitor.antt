-- ===== src/Monitor.antt =====
-- monitorHeartbeats of control/cmd/forge-control/main.go: nodes that have fallen silent.
pub mod Silence
pub mod Marking
mod Tests
use appx_forge.Base.{
  ℕ, ◌+◌, ◌*◌, Bool, true, false, not, ◌||◌, List, [], ◌∷◌, Result, ok, err, ltb, on_result,
  if◌then◌else◌,
}
use appx_forge.Models.{unhealthy}
use appx_forge.Store.{Node, second, DbErr}
use appx_forge.Store.Nodes.{is_healthy, list_nodes, update_node_status}
use appx_forge.Store.Call.{M, attempt, catch, ◌>>=◌, ◌>>◌, pure}
use appx_forge.Lifecycle.{Err, skip}
use appx_forge.Lifecycle.Reschedule.{reschedule_node}

-- The seconds between two heartbeats, and how many may be missed.
pub record HeartbeatConfig : Type 0 where
  pub interval_seconds : ℕ
  pub miss_threshold : ℕ

-- `elapsed > threshold`, with the subtraction moved to the right.
unfoldable pub is_silent : HeartbeatConfig → ℕ → Node → Bool
is_silent cfg now n = ltb (n.last_seen_at + cfg.interval_seconds * cfg.miss_threshold * second) now

-- A statement that failed, and the outcome of the rescheduling, are logged only.
unfoldable pub check_node : HeartbeatConfig → Bool → ℕ → Node → M Err (Unit {0})
check_node cfg notifier now n =
    if not (is_healthy n.status) then skip else if not (is_silent cfg now n) then skip else (do
      marked ← attempt (update_node_status n.id unhealthy)
      on_result marked (λ _. catch (reschedule_node notifier n.id) >>= λ _. pure tt) (λ _. skip))

unfoldable pub check_nodes : HeartbeatConfig → Bool → ℕ → List Node → M Err (Unit {0})
check_nodes cfg notifier now [] = pure tt
check_nodes cfg notifier now (n ∷ rest) = do
  check_node cfg notifier now n
  check_nodes cfg notifier now rest

-- One tick; `now` is the process's clock after the listing.
unfoldable pub monitor_tick : HeartbeatConfig → Bool → ℕ → M Err (Unit {0})
monitor_tick cfg notifier now = do
  nodes ← attempt list_nodes
  on_result nodes (check_nodes cfg notifier now) (λ _. skip)
