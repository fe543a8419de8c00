-- ===== src/Lifecycle/Events.antt =====
-- HandleEvent of control/internal/lifecycle/lifecycle.go: an agent reports what Docker did.
use appx_forge.Base.{
  on_option, ℕ, Bool, true, false, Option, none, some, String, if◌then◌else◌, str_eq, ◌&&◌, ◌||◌,
}
use appx_forge.Models.{
  SandboxState, SandboxEvent, running, restarting, stopped, failed, started, container_exited,
  next_state, state_eq,
}
use appx_forge.Store.{Sandbox}
use appx_forge.Store.Sandboxes.{get_sandbox, transition_sandbox_state}
use appx_forge.Store.Call.{M, catch, query, ◌>>=◌, ◌>>◌, pure}
use appx_forge.Lifecycle.{Err, wrapped, LifecycleService, safe_payload, record_quietly, skip}
use appx_forge.Lifecycle.Restart.{handle_crash}
use appx_forge.Lifecycle.Routes.{notify_route_remove}

-- The state machine's event for the agent's `event_type`; an OOM kill counts as an exit.
unfoldable pub container_event : String → Option SandboxEvent
container_event text =
    if str_eq text "container_started"
    then some started
    else if str_eq text "container_exited" || str_eq text "container_oom"
    then some container_exited
    else none

abbrev takes_route_down : SandboxState → Bool
takes_route_down restarting = true
takes_route_down stopped = true
takes_route_down failed = true
takes_route_down _ = false

unfoldable pub drop_route : LifecycleService → Sandbox → SandboxState → M Err (Unit {0})
drop_route ls sandbox next =
    if ls.route_notifier && state_eq sandbox.state running && takes_route_down next
    then notify_route_remove sandbox.app_name
    else skip

-- The restart manager is given the row as it was read before the transition.
unfoldable pub delegate_crash : LifecycleService → Sandbox → SandboxState → M Err (Unit {0})
delegate_crash ls sandbox next =
    if ls.restart_mgr && state_eq next restarting
    then (do catch (handle_crash sandbox); pure tt)
    else skip

unfoldable pub apply_event :
    LifecycleService → ℕ → ℕ → Sandbox → String → SandboxState → String → M Err (Unit {0})
apply_event ls node_id sandbox_id sandbox event_type next payload = do
  query (wrapped "transition state") (transition_sandbox_state next sandbox_id sandbox.state)
  record_quietly (record {
    sandbox_id = some sandbox_id;
    node_id = some node_id;
    event_type = event_type;
    actor = "agent";
    prev_state = some sandbox.state;
    next_state = some next;
    payload = safe_payload payload;
  })
  drop_route ls sandbox next
  delegate_crash ls sandbox next

-- Unknown event types and transitions that the table does not have are ignored.
unfoldable pub handle_event : LifecycleService → ℕ → ℕ → String → String → M Err (Unit {0})
handle_event ls node_id sandbox_id event_type payload = do
  sandbox ← query (wrapped "get sandbox") (get_sandbox sandbox_id)
  on_option (container_event event_type)
      (λ event.
        on_option (next_state sandbox.state event)
          (λ next. apply_event ls node_id sandbox_id sandbox event_type next payload) skip)
      skip
