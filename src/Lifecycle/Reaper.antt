-- ===== src/Lifecycle/Reaper.antt =====
-- control/internal/lifecycle/idle_reaper.go: idle sandboxes are stopped, one tick of the loop.
use appx_forge.Base.{ℕ, ◌+◌, Bool, some, List, [], ◌∷◌, Result, ok, err, if◌then◌else◌}
use appx_forge.Models.{running, stopped, idle_timeout, stop_sandbox, event_name}
use appx_forge.Store.{Sandbox, reap_payload, empty_object}
use appx_forge.Store.Sandboxes.{transition_sandbox_state, list_idle_sandboxes}
use appx_forge.Store.Commands.{create_command}
use appx_forge.Store.Call.{
  M, sandbox_stopped, attempt, catch, query, fresh_uuid, notify, ◌>>=◌, ◌>>◌, pure,
}
use appx_forge.Lifecycle.{Err, wrapped, record_quietly, skip}
use appx_forge.Lifecycle.Restart.{text_of}

-- After the transition no failure stops the rest: the stop command, the event and the route.
unfoldable pub reap_one : Bool → Sandbox → M Err (Unit {0})
reap_one notifier sb = do
  query (wrapped "") (transition_sandbox_state stopped sb.id running)
  cmd_id ← fresh_uuid
  attempt (
      create_command (record {
        id = cmd_id;
        node_id = sb.node_id;
        sandbox_id = some sb.id;
        command_type = stop_sandbox;
        payload = reap_payload (text_of sb.container_id);
        timeout_seconds = 60;
      }))
  record_quietly (record {
    sandbox_id = some sb.id;
    node_id = sb.node_id;
    event_type = event_name idle_timeout;
    actor = "idle-reaper";
    prev_state = some running;
    next_state = some stopped;
    payload = empty_object;
  })
  if notifier then notify (sandbox_stopped sb.app_name) else skip

abbrev pub one_more : ℕ → Result Err (Unit {0}) → ℕ
one_more n (ok _) = n + 1
one_more n (err _) = n

-- The batch goes on after a failure; the count is of the sandboxes that were reaped.
unfoldable pub reap_each : Bool → ℕ → List Sandbox → M Err ℕ
reap_each notifier reaped [] = pure reaped
reap_each notifier reaped (sb ∷ rest) = do
  done ← catch (reap_one notifier sb)
  reap_each notifier (one_more reaped done) rest

unfoldable pub reap : Bool → M Err ℕ
reap notifier = do
  sandboxes ← query (wrapped "") list_idle_sandboxes
  reap_each notifier 0 sandboxes
