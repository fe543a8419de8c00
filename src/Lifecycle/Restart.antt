-- ===== src/Lifecycle/Restart.antt =====
-- control/internal/lifecycle/restart.go: recovery from crashes with exponential backoff. Delays are
-- whole seconds.
use appx_forge.Base.{
  ℕ, ◌+◌, ◌-◌, ◌*◌, ◌^◌, Bool, true, false, Option, none, some, String, ltb, if◌then◌else◌,
}
use appx_forge.Models.{starting, restarting, failed, restart_attempt, event_name, start_sandbox}
use appx_forge.Store.{Sandbox, restart_payload, empty_object, Payload}
use appx_forge.Store.Sandboxes.{
  transition_sandbox_state, increment_sandbox_failure_count, reset_sandbox_failure_count,
}
use appx_forge.Store.Commands.{create_command}
use appx_forge.Store.Call.{M, query, fresh_uuid, ◌>>=◌, ◌>>◌, pure}
use appx_forge.Lifecycle.{Err, wrapped, record_quietly}

abbrev pub max_restart_attempts : ℕ
max_restart_attempts = 3

abbrev pub base_restart_delay : ℕ
base_restart_delay = 5

pub record CrashResult : Type 0 where
  pub should_restart : Bool
  pub delay : ℕ

-- A nil Text column read as `.String` is the empty text.
abbrev pub text_of : Option String → String
text_of none = ""
text_of (some s) = s

-- `baseRestartDelay * (1 << (newCount - 1))`.
unfoldable pub backoff : ℕ → ℕ
backoff count = base_restart_delay * 2 ^ (count - 1)

-- More than `maxRestartAttempts` crashes.
unfoldable pub exhaust : Sandbox → M Err CrashResult
exhaust sandbox = do
  query (wrapped "transition to failed") (transition_sandbox_state failed sandbox.id sandbox.state)
  record_quietly (record {
    sandbox_id = some sandbox.id;
    node_id = sandbox.node_id;
    event_type = "restart_exhausted";
    actor = "control-plane";
    prev_state = some sandbox.state;
    next_state = some failed;
    payload = empty_object;
  })
  pure (record { should_restart = false; delay = 0 })

abbrev pub retry_payload : Sandbox → ℕ → Payload
retry_payload sandbox delay =
    restart_payload sandbox.app_name sandbox.image (text_of sandbox.container_id) delay

unfoldable pub retry : Sandbox → ℕ → M Err CrashResult
retry sandbox delay = do
  query (wrapped "transition restarting->starting")
      (transition_sandbox_state starting sandbox.id restarting)
  cmd_id ← fresh_uuid
  query (wrapped "create restart command") (
      create_command (record {
        id = cmd_id;
        node_id = sandbox.node_id;
        sandbox_id = some sandbox.id;
        command_type = start_sandbox;
        payload = retry_payload sandbox delay;
        timeout_seconds = 60 + delay;
      }))
  record_quietly (record {
    sandbox_id = some sandbox.id;
    node_id = sandbox.node_id;
    event_type = event_name restart_attempt;
    actor = "control-plane";
    prev_state = some restarting;
    next_state = some starting;
    payload = retry_payload sandbox delay;
  })
  pure (record { should_restart = true; delay = delay })

unfoldable pub handle_crash : Sandbox → M Err CrashResult
handle_crash sandbox = do
  updated ← query (wrapped "increment failure count") (increment_sandbox_failure_count sandbox.id)
  if ltb max_restart_attempts updated.failure_count
      then exhaust sandbox
      else retry sandbox (backoff updated.failure_count)

unfoldable pub handle_restarted : ℕ → M Err (Unit {0})
handle_restarted sandbox_id =
    query (wrapped "reset failure count") (reset_sandbox_failure_count sandbox_id)
