-- ===== src/Lifecycle/Requests.antt =====
-- DestroySandbox, WakeSandbox and RestartSandbox of control/internal/lifecycle/lifecycle.go.
use appx_forge.Base.{on_option, ℕ, some, [], str_eq, if◌then◌else◌}
use appx_forge.Models.{
  SandboxState, starting, running, stopped, destroy_requested, scheduled, start_sandbox,
  stop_sandbox, restart_sandbox, event_name, next_state, state_eq,
}
use appx_forge.Base.Int.{pos}
use appx_forge.Store.{Sandbox, Resources, Payload, start_payload, container_payload}
use appx_forge.Store.Sandboxes.{get_sandbox, transition_sandbox_state}
use appx_forge.Store.Commands.{create_command}
use appx_forge.Store.Call.{M, query, fresh_uuid, ask, ◌>>=◌, ◌>>◌, pure, fail}
use appx_forge.Lifecycle.{Err, wrapped, invalid_transition, invalid_state, record_quietly}
use appx_forge.Lifecycle.Restart.{text_of}

abbrev stop_payload : Sandbox → Payload
stop_payload sandbox = container_payload (text_of sandbox.container_id)

-- The stop command and its event, once the row is in its new state.
unfoldable pub begin_destroy : ℕ → Sandbox → SandboxState → M Err (Unit {0})
begin_destroy id sandbox next = do
  query (wrapped "transition state") (transition_sandbox_state next id sandbox.state)
  cmd_id ← fresh_uuid
  query (wrapped "create stop command") (
      create_command (record {
        id = cmd_id;
        node_id = sandbox.node_id;
        sandbox_id = some id;
        command_type = stop_sandbox;
        payload = stop_payload sandbox;
        timeout_seconds = 60;
      }))
  record_quietly (record {
    sandbox_id = some id;
    node_id = sandbox.node_id;
    event_type = event_name destroy_requested;
    actor = "control-plane";
    prev_state = some sandbox.state;
    next_state = some next;
    payload = stop_payload sandbox;
  })

unfoldable pub destroy_sandbox : ℕ → M Err (Unit {0})
destroy_sandbox id = do
  sandbox ← query (wrapped "get sandbox") (get_sandbox id)
  on_option (next_state sandbox.state destroy_requested) (begin_destroy id sandbox)
      (fail invalid_transition)

-- The zero value of `Resources`.
abbrev no_resources : Resources
no_resources = record { cpu_cores = 0; memory_mb = pos 0 }

-- An empty column is not decoded; the decoders' errors are ignored.
unfoldable pub wake_payload : Sandbox → M Err Payload
wake_payload sandbox = do
  decode_resources ← ask (λ env. env.decode_resources)
  decode_env ← ask (λ env. env.decode_env)
  pure (
      start_payload sandbox.app_name sandbox.image
        (if str_eq sandbox.resources ""
          then no_resources
          else (decode_resources sandbox.resources).0)
        (if str_eq sandbox.env "" then [] else (decode_env sandbox.env).0))

unfoldable pub begin_wake : ℕ → Sandbox → M Err (Unit {0})
begin_wake id sandbox = do
  query (wrapped "transition state") (transition_sandbox_state starting id sandbox.state)
  payload ← wake_payload sandbox
  cmd_id ← fresh_uuid
  query (wrapped "create start command") (
      create_command (record {
        id = cmd_id;
        node_id = sandbox.node_id;
        sandbox_id = some id;
        command_type = start_sandbox;
        payload = payload;
        timeout_seconds = 60;
      }))
  record_quietly (record {
    sandbox_id = some id;
    node_id = sandbox.node_id;
    event_type = event_name scheduled;
    actor = "control-plane-wake";
    prev_state = some stopped;
    next_state = some starting;
    payload = payload;
  })

unfoldable pub wake_sandbox : ℕ → M Err (Unit {0})
wake_sandbox id = do
  sandbox ← query (wrapped "get sandbox") (get_sandbox id)
  if state_eq sandbox.state stopped then begin_wake id sandbox else fail invalid_state

unfoldable pub request_restart : ℕ → Sandbox → M Err (Unit {0})
request_restart id sandbox = do
  cmd_id ← fresh_uuid
  query (wrapped "create restart command") (
      create_command (record {
        id = cmd_id;
        node_id = sandbox.node_id;
        sandbox_id = some id;
        command_type = restart_sandbox;
        payload = stop_payload sandbox;
        timeout_seconds = 60;
      }))
  record_quietly (record {
    sandbox_id = some id;
    node_id = sandbox.node_id;
    event_type = "restart_requested";
    actor = "control-plane";
    prev_state = some sandbox.state;
    next_state = some sandbox.state;
    payload = stop_payload sandbox;
  })

unfoldable pub restart_running : ℕ → M Err (Unit {0})
restart_running id = do
  sandbox ← query (wrapped "get sandbox") (get_sandbox id)
  if state_eq sandbox.state running then request_restart id sandbox else fail invalid_state
