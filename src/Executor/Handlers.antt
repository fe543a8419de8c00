-- ===== src/Executor/Handlers.antt =====
-- Execute, the handlers of the command types, and CodeDir.
use appx_forge.Base.{
  ℕ, ◌*◌, String, str_append, str_eq, Result, ok, err, on_result, on_option, if◌then◌else◌,
}
use appx_forge.Store.{second}
use appx_forge.Ports.{
  Allocator, PortErr, none_available, out_of_range, already_allocated, not_available, not_allocated,
  allocate, release,
}
use appx_forge.Executor.{
  SandboxInfo, StartSandboxPayload, SandboxSpec, Command, AckResult, no_result, empty_result,
  started, logs, AckRequest, Outside, CommandExecutor, Report, is_expired,
}
use appx_forge.Base.Dict.{lookup, drop, put}

abbrev of_port : (ℕ → String) → String → ℕ → String → String
of_port show before port after =
    str_append "port allocator: port " (str_append before (str_append (show port) after))

-- The messages of the allocator's errors.
abbrev pub port_err_message : (ℕ → String) → Allocator → PortErr → String
port_err_message show a none_available =
    str_append "port allocator: no ports available in range ["
      (str_append (show a.min) (str_append ", " (str_append (show a.max) "]")))
port_err_message show a (out_of_range p) = of_port show "" p (
    str_append " is outside range ["
      (str_append (show a.min) (str_append ", " (str_append (show a.max) "]"))))
port_err_message show a (already_allocated p) = of_port show "" p " is already allocated"
port_err_message show a (not_available p) = of_port show "" p " is not available"
port_err_message show a (not_allocated p) = of_port show "" p " is not currently allocated"

unfoldable pub ack_success :
    Outside → String → AckResult → CommandExecutor → Report × CommandExecutor
ack_success out cmd_id result e =
    let ack : AckRequest = record { status = "success"; error = ""; result = result } in
    (record { cmd_id = cmd_id; ack = ack; error = out.ack_command cmd_id ack }, e)

unfoldable pub ack_failure : Outside → String → String → CommandExecutor → Report × CommandExecutor
ack_failure out cmd_id message e =
    let ack : AckRequest = record { status = "failure"; error = message; result = no_result } in
    (record { cmd_id = cmd_id; ack = ack; error = out.ack_command cmd_id ack }, e)

abbrev pub spec_of : Command → StartSandboxPayload → ℕ → CommandExecutor → SandboxSpec
spec_of cmd payload host_port e = record {
  sandbox_id = cmd.sandbox_id;
  app_name = payload.app_name;
  image = payload.image;
  host_port = host_port;
  cpu_cores = payload.resources.cpu_cores;
  memory_mb = payload.resources.memory_mb;
  env = payload.env;
  sandbox_dir = e.sandbox_dir;
}

-- An earlier entry under the same identifier is overwritten.
unfoldable pub track : String → SandboxInfo → CommandExecutor → CommandExecutor
track id info e = record e { sandboxes = put id info e.sandboxes }

-- Whether the release failed is only logged.
unfoldable pub give_up_port : ℕ → CommandExecutor → CommandExecutor
give_up_port port e = record e { ports = (release port e.ports).1 }

unfoldable pub start_on_port :
    Outside → Command → StartSandboxPayload → ℕ → CommandExecutor → Report × CommandExecutor
start_on_port out cmd payload host_port e =
    on_result (out.create_container (spec_of cmd payload host_port e))
      (λ container_id. ack_success out cmd.id (started container_id host_port) (
        track cmd.sandbox_id
          (record {
            container_id = container_id;
            host_port = host_port;
            app_name = payload.app_name;
          })
          e))
      (λ message.
        ack_failure out cmd.id (str_append "container creation failed: " message)
          (give_up_port host_port e))

abbrev pub start_allocated :
    Outside
    → Command
    → StartSandboxPayload
    → CommandExecutor
    → Result PortErr ℕ × Allocator
    → Report × CommandExecutor
start_allocated out cmd payload e (ok host_port, ports) =
    start_on_port out cmd payload host_port (record e { ports = ports })
start_allocated out cmd payload e (err x, ports) =
    ack_failure out cmd.id
      (str_append "port allocation failed: " (port_err_message out.show e.ports x))
      (record e { ports = ports })

unfoldable pub execute_start_sandbox :
    Outside → Command → CommandExecutor → Report × CommandExecutor
execute_start_sandbox out cmd e =
    on_result (out.decode_start cmd.payload)
      (λ payload. start_allocated out cmd payload e (allocate out.turn e.ports))
      (λ message. ack_failure out cmd.id (str_append "invalid start_sandbox payload: " message) e)

unfoldable pub untrack : String → CommandExecutor → CommandExecutor
untrack id e =
    on_option (lookup id e.sandboxes)
      (λ info. record (give_up_port info.host_port e) { sandboxes = drop id e.sandboxes }) e

unfoldable pub execute_stop_sandbox : Outside → Command → CommandExecutor → Report × CommandExecutor
execute_stop_sandbox out cmd e =
    on_result (out.decode_stop cmd.payload)
      (λ payload.
        on_option (out.stop_container payload.container_id (10 * second))
          (λ message. ack_failure out cmd.id (str_append "stop container failed: " message) e)
          (on_option (out.remove_container payload.container_id)
            (λ message. ack_failure out cmd.id (str_append "remove container failed: " message) e)
            (ack_success out cmd.id empty_result (untrack cmd.sandbox_id e))))
      (λ message. ack_failure out cmd.id (str_append "invalid stop_sandbox payload: " message) e)

unfoldable pub execute_restart_sandbox :
    Outside → Command → CommandExecutor → Report × CommandExecutor
execute_restart_sandbox out cmd e =
    on_result (out.decode_restart cmd.payload)
      (λ payload.
        on_option (out.restart_container payload.container_id (10 * second))
          (λ message. ack_failure out cmd.id (str_append "restart container failed: " message) e)
          (ack_success out cmd.id empty_result e))
      (λ message. ack_failure out cmd.id (str_append "invalid restart_sandbox payload: " message) e)

unfoldable pub execute_get_logs : Outside → Command → CommandExecutor → Report × CommandExecutor
execute_get_logs out cmd e =
    on_result (out.decode_logs cmd.payload)
      (λ payload.
        on_result (out.get_logs payload.container_id payload.tail payload.follow)
          (λ reader.
            on_result (out.read_all reader) (λ text. ack_success out cmd.id (logs text) e)
              (λ message. ack_failure out cmd.id (str_append "read logs failed: " message) e))
          (λ message. ack_failure out cmd.id (str_append "get logs failed: " message) e))
      (λ message. ack_failure out cmd.id (str_append "invalid get_logs payload: " message) e)

unfoldable pub execute_prune : Outside → Command → CommandExecutor → Report × CommandExecutor
execute_prune out cmd e = ack_success out cmd.id empty_result e

unfoldable pub execute : Outside → Command → CommandExecutor → Report × CommandExecutor
execute out cmd e =
    if is_expired out.now cmd
    then ack_failure out cmd.id "command timed out before execution" e
    else if str_eq cmd.command_type "start_sandbox"
    then execute_start_sandbox out cmd e
    else if str_eq cmd.command_type "stop_sandbox"
    then execute_stop_sandbox out cmd e
    else if str_eq cmd.command_type "restart_sandbox"
    then execute_restart_sandbox out cmd e
    else if str_eq cmd.command_type "get_logs"
    then execute_get_logs out cmd e
    else if str_eq cmd.command_type "prune"
    then execute_prune out cmd e
    else ack_failure out cmd.id (str_append "unknown command type: " cmd.command_type) e

unfoldable pub code_dir : String → CommandExecutor → Result String String
code_dir id e =
    on_option (lookup id e.sandboxes)
      (λ info. ok (str_append e.sandbox_dir (str_append "/" (str_append info.app_name "/code"))))
      (err (str_append "sandbox " (str_append id " not found on this node")))
