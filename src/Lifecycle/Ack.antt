-- ===== src/Lifecycle/Ack.antt =====
-- HandleAck of control/internal/lifecycle/lifecycle.go: an agent acknowledges a command.
use appx_forge.Base.{
  on_result, on_option, ℕ, Bool, false, Option, none, some, String, if◌then◌else◌, str_eq, ◌&&◌,
  ◌||◌, ltb,
}
use appx_forge.Models.{
  SandboxState, SandboxEvent, CommandType, running, destroying, destroyed, failed, started,
  start_failed, destroy_done, start_sandbox, stop_sandbox, cmd_completed, cmd_failed, next_state,
  event_name, state_eq,
}
use appx_forge.Store.{Sandbox, DbErr}
use appx_forge.Store.Sandboxes.{get_sandbox, transition_sandbox_state}
use appx_forge.Store.Commands.{ack_command}
use appx_forge.Store.Call.{M, attempt, catch, query, ◌>>=◌, ◌>>◌, pure, fail}
use appx_forge.Lifecycle.{
  Err, wrapped, invalid_transition, LifecycleService, is_no_rows, safe_payload, record_quietly,
  skip,
}
use appx_forge.Lifecycle.Restart.{handle_restarted}
use appx_forge.Lifecycle.Routes.{notify_route_add, notify_route_remove, persist_runtime_info}

-- The switch on the command and its status; `none` is `needsTransition = false`.
unfoldable pub ack_event : CommandType → String → SandboxState → Option SandboxEvent
ack_event start_sandbox status state =
    if str_eq status "success"
    then some started
    else if str_eq status "failure"
    then some start_failed
    else none
ack_event stop_sandbox status state =
    if str_eq status "success" && state_eq state destroying then some destroy_done else none
ack_event _ status state = none

-- The state that the event aims at.
unfoldable pub at_target : SandboxEvent → SandboxState → Bool
at_target started s = state_eq s running
at_target start_failed s = state_eq s failed
at_target destroy_done s = state_eq s destroyed
at_target _ s = false

-- The compare-and-swap lost against another handler: the row is read again, and the ack passes if
-- the row already is where the ack would put it.
unfoldable pub settle_race :
    ℕ → SandboxEvent → SandboxState → DbErr → M Err (Sandbox × SandboxState)
settle_race id event next e =
    if is_no_rows e
    then (do
      refreshed ← attempt (get_sandbox id)
      on_result refreshed
          (λ r.
            if state_eq r.state next || at_target event r.state
            then pure (r, r.state)
            else fail (wrapped "transition state" e))
          (λ _. fail (wrapped "transition state" e)))
    else fail (wrapped "transition state" e)

-- The row as later steps see it, and the state that they take as reached.
unfoldable pub advance : ℕ → Sandbox → SandboxEvent → M Err (Sandbox × SandboxState)
advance id sandbox event =
    on_option (next_state sandbox.state event)
      (λ next. do
        moved ← attempt (transition_sandbox_state next id sandbox.state)
        on_result moved (λ _. pure (sandbox, next)) (settle_race id event next))
      (if at_target event sandbox.state
        then pure (sandbox, sandbox.state)
        else fail invalid_transition)

-- Only a successful start persists the runtime info, and reads the row again after.
unfoldable pub refresh : ℕ → Sandbox → SandboxEvent → String → M Err Sandbox
refresh id sandbox started ack_result = do
  persist_runtime_info id ack_result
  refreshed ← attempt (get_sandbox id)
  on_result refreshed pure (λ _. pure sandbox)
refresh id sandbox _ ack_result = pure sandbox

unfoldable pub notify_ack : LifecycleService → Sandbox → ℕ → SandboxState → M Err (Unit {0})
notify_ack ls sandbox id running = if ls.route_notifier then notify_route_add sandbox id else skip
notify_ack ls sandbox id destroyed =
    if ls.route_notifier then notify_route_remove sandbox.app_name else skip
notify_ack ls sandbox id _ = skip

unfoldable pub reset_failures : LifecycleService → Sandbox → ℕ → SandboxState → M Err (Unit {0})
reset_failures ls sandbox id next =
    if ls.restart_mgr && state_eq next running && ltb 0 sandbox.failure_count
    then (do catch (handle_restarted id); pure tt)
    else skip

unfoldable pub apply_ack : LifecycleService → ℕ → Sandbox → SandboxEvent → String → M Err (Unit {0})
apply_ack ls id sandbox event ack_result = do
  (seen, next) ← advance id sandbox event
  row ← refresh id seen event ack_result
  record_quietly (record {
    sandbox_id = some id;
    node_id = row.node_id;
    event_type = event_name event;
    actor = "agent";
    prev_state = some row.state;
    next_state = some next;
    payload = safe_payload ack_result;
  })
  notify_ack ls row id next
  reset_failures ls row id next

-- A nil result is stored as NULL.
abbrev nullable : String → Option String
nullable s = if str_eq s "" then none else some s

unfoldable pub handle_ack :
    LifecycleService → ℕ → ℕ → CommandType → String → String → M Err (Unit {0})
handle_ack ls cmd_id sandbox_id cmd_type status ack_result = do
  sandbox ← query (wrapped "get sandbox") (get_sandbox sandbox_id)
  on_option (ack_event cmd_type status sandbox.state)
      (λ event. apply_ack ls sandbox_id sandbox event ack_result) skip
  query (wrapped "ack command") (
      ack_command cmd_id (if str_eq status "failure" then cmd_failed else cmd_completed)
        (nullable ack_result))
