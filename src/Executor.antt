-- ===== src/Executor.antt =====
-- agent/internal/agent/executor.go: how an agent carries out the commands of the control plane. The
-- commands run one at a time, so a handler is one step on the executor's state.
pub mod Handlers
pub mod Effects
pub mod Tracking
pub mod Leak
mod Tests
use appx_forge.Base.{
  ℕ, ◌*◌, ◌+◌, ◌&&◌, Bool, false, Option, none, List, [], ◌∷◌, String, Result, ltb,
}
use appx_forge.Base.Int.{ℤ, pos, negsuc, scale64, pos_part, neg_part}
use appx_forge.Store.{second}
use appx_forge.Ports.{Allocator}

pub record SandboxInfo : Type 0 where
  pub container_id : String
  pub host_port : ℕ
  pub app_name : String

-- A float64 is a number that is only carried.
pub record ResourceSpec : Type 0 where
  pub cpu_cores : ℕ
  pub memory_mb : ℤ

pub record StartSandboxPayload : Type 0 where
  pub app_name : String
  pub image : String
  pub resources : ResourceSpec
  pub env : List (String × String)

-- Of a stop and of a restart.
pub record ContainerPayload : Type 0 where
  pub container_id : String

pub record GetLogsPayload : Type 0 where
  pub container_id : String
  pub tail : ℤ
  pub follow : Bool

pub record SandboxSpec : Type 0 where
  pub sandbox_id : String
  pub app_name : String
  pub image : String
  pub host_port : ℕ
  pub cpu_cores : ℕ
  pub memory_mb : ℤ
  pub env : List (String × String)
  pub sandbox_dir : String

-- What the agent gets from the control plane; instants are microseconds.
pub record Command : Type 0 where
  pub id : String
  pub command_type : String
  pub sandbox_id : String
  pub payload : String
  pub issued_at : ℕ
  pub timeout_seconds : ℤ

-- The values that the handlers put into `Result`.
pub data AckResult : Type 0 where
  no_result empty_result : AckResult
  started : String → ℕ → AckResult
  logs : String → AckResult

pub record AckRequest : Type 0 where
  pub status : String
  pub error : String
  pub result : AckResult

-- What lies outside of one execution: the clock, the JSON decoder, fmt's %d, the Docker client, the
-- call of the control plane, and the key that an iteration over the free ports starts with. An
-- outcome that is no `Result` is Go's error, `none` for nil.
pub record Outside : Type 0 where
  pub now : ℕ
  pub turn : ℕ
  pub show : ℕ → String
  pub decode_start : String → Result String StartSandboxPayload
  pub decode_stop : String → Result String ContainerPayload
  pub decode_restart : String → Result String ContainerPayload
  pub decode_logs : String → Result String GetLogsPayload
  pub create_container : SandboxSpec → Result String String
  pub stop_container : String → ℕ → Option String
  pub remove_container : String → Option String
  pub restart_container : String → ℕ → Option String
  pub get_logs : String → ℤ → Bool → Result String String
  pub read_all : String → Result String String
  pub ack_command : String → AckRequest → Option String

-- `mu` makes each access of the map one step; an entry is never changed in place.
pub record CommandExecutor : Type 0 where
  pub ports : Allocator
  pub sandbox_dir : String
  pub sandboxes : List (String × SandboxInfo)

-- What an execution does to the outside: the command that it acknowledges, how, and the error that
-- the acknowledgment returned, which `Execute` passes on.
pub record Report : Type 0 where
  pub cmd_id : String
  pub ack : AckRequest
  pub error : Option String

unfoldable pub new_command_executor : Allocator → String → CommandExecutor
new_command_executor ports sandbox_dir = record {
  ports = ports;
  sandbox_dir = sandbox_dir;
  sandboxes = [];
}

-- `TimeoutSeconds > 0` and `now.After(deadline)`; instants are in
-- microseconds, and the timeout becomes an int64 of nanoseconds.
unfoldable pub is_expired : ℕ → Command → Bool
is_expired now cmd = elim cmd.timeout_seconds [
  | pos t ↦
      let timeout = scale64 1000000000 (pos t) in
      ltb 0 t && ltb (cmd.issued_at * 1000 + pos_part timeout) (now * 1000 + neg_part timeout)
  | negsuc t ↦ false
]
