-- ===== src/Lifecycle/Reschedule.antt =====
-- control/internal/lifecycle/reschedule.go: the sandboxes of a failed node move to healthy ones.
use appx_forge.Base.{
  on_result, ℕ, ◌+◌, Bool, none, some, List, [], ◌∷◌, ◌++◌, Result, ok, err, if◌then◌else◌, map,
  ◌&&◌,
}
use appx_forge.Base.Int.{ℤ, pos, ltb_ℤ}
use appx_forge.Models.{
  pending, starting, running, failed, node_failed, scheduled, start_sandbox, event_name,
}
use appx_forge.Store.{Sandbox, Resources, resched_payload, empty_object}
use appx_forge.Store.Sandboxes.{
  transition_sandbox_state, reset_sandbox_failure_count, assign_sandbox_to_node,
  list_running_sandboxes_by_node,
}
use appx_forge.Store.Commands.{create_command}
use appx_forge.Store.Nodes.{list_healthy_nodes}
use appx_forge.Store.Call.{
  M, sandbox_stopped, attempt, catch, query, fresh_uuid, ask, notify, ◌>>=◌, ◌>>◌, pure, fail,
}
use appx_forge.Scheduler.{schedule}
use appx_forge.Lifecycle.{Err, no_capacity, wrapped, record_quietly, skip}
use appx_forge.Lifecycle.Create.{to_candidate}

-- No node fits: the row goes to failed, and the attempt is an error.
unfoldable pub give_up : Sandbox → M Err (Unit {0})
give_up sandbox = do
  attempt (transition_sandbox_state failed sandbox.id pending)
  record_quietly (record {
    sandbox_id = some sandbox.id;
    node_id = sandbox.node_id;
    event_type = "reschedule_failed";
    actor = "rescheduler";
    prev_state = some pending;
    next_state = some failed;
    payload = empty_object;
  })
  fail no_capacity

unfoldable pub move_to : Sandbox → Resources → ℕ → M Err (Unit {0})
move_to sandbox res node_id = do
  query (wrapped "assign sandbox to node") (assign_sandbox_to_node node_id none none sandbox.id)
  cmd_id ← fresh_uuid
  query (wrapped "create start command") (
      create_command (record {
        id = cmd_id;
        node_id = some node_id;
        sandbox_id = some sandbox.id;
        command_type = start_sandbox;
        payload = resched_payload sandbox.app_name sandbox.image res sandbox.env;
        timeout_seconds = 60;
      }))
  record_quietly (record {
    sandbox_id = some sandbox.id;
    node_id = some node_id;
    event_type = event_name scheduled;
    actor = "rescheduler";
    prev_state = some pending;
    next_state = some starting;
    payload = resched_payload sandbox.app_name sandbox.image res sandbox.env;
  })

-- `memory_mb` of the row if it decodes and is positive, 512 otherwise.
unfoldable pub required_mb : Resources × Bool → ℤ
required_mb (res, decoded) =
    if decoded && ltb_ℤ (pos 0) res.memory_mb then res.memory_mb else pos 512

-- Steps 1 to 4: the row leaves `running`, its route is taken down and its failures forgotten.
unfoldable pub detach : Bool → Sandbox → M Err (Unit {0})
detach notifier sandbox = do
  query (wrapped "transition running->pending")
      (transition_sandbox_state pending sandbox.id running)
  record_quietly (record {
    sandbox_id = some sandbox.id;
    node_id = sandbox.node_id;
    event_type = event_name node_failed;
    actor = "rescheduler";
    prev_state = some running;
    next_state = some pending;
    payload = empty_object;
  })
  if notifier then notify (sandbox_stopped sandbox.app_name) else skip
  attempt (reset_sandbox_failure_count sandbox.id)
  pure tt

unfoldable pub reschedule_sandbox : Bool → Sandbox → M Err (Unit {0})
reschedule_sandbox notifier sandbox = do
  detach notifier sandbox
  nodes ← query (wrapped "list healthy nodes") list_healthy_nodes
  decode_resources ← ask (λ env. env.decode_resources)
  let res = decode_resources sandbox.resources
  on_result (schedule (map to_candidate nodes) (required_mb res)) (move_to sandbox res.0)
      (λ _. give_up sandbox)

pub record RescheduleResult : Type 0 where
  pub count : ℕ
  pub failures : ℕ
  pub errors : List Err

abbrev pub tally : RescheduleResult → Result Err (Unit {0}) → RescheduleResult
tally r (ok _) = record r { count = r.count + 1 }
tally r (err e) = record r { failures = r.failures + 1; errors = r.errors ++ e ∷ [] }

-- The loop over the sandboxes of the node, one after the other.
unfoldable pub reschedule_each : Bool → RescheduleResult → List Sandbox → M Err RescheduleResult
reschedule_each notifier r [] = pure r
reschedule_each notifier r (sandbox ∷ rest) = do
  done ← catch (reschedule_sandbox notifier sandbox)
  reschedule_each notifier (tally r done) rest

unfoldable pub reschedule_node : Bool → ℕ → M Err RescheduleResult
reschedule_node notifier failed_node = do
  sandboxes ←
      query (wrapped "list running sandboxes for node") (list_running_sandboxes_by_node failed_node)
  reschedule_each notifier (record { count = 0; failures = 0; errors = [] }) sandboxes
