-- ===== src/Store.antt =====
-- control/internal/store: the tables of the database (models.go and the migrations) and how the
-- control plane calls them. A row is a record, a table is a list of rows, and a nullable column is
-- an Option. UUIDs are numbers, instants are microseconds, JSON columns are texts that only the
-- codec of `Env` reads; `Payload` is the value that is given to the JSON encoder.
pub mod Table
pub mod Sandboxes
pub mod Commands
pub mod Polling
pub mod Listing
pub mod EventListing
pub mod Keys
pub mod Nodes
pub mod Call
pub mod Rely
pub mod Quiet
pub mod Cost
use appx_forge.Base.{ℕ, Option, Result, List, String, Bool}
use appx_forge.Base.Int.{ℤ}
use appx_forge.Models.{SandboxState, CommandType, CommandStatus, NodeStatus}

-- One second, in the unit of the clock.
abbrev pub second : ℕ
second = 1000000

pub record Sandbox : Type 0 where
  pub id : ℕ
  pub app_name : String
  pub user_id : String
  pub node_id : Option ℕ
  pub container_id : Option String
  pub host_port : Option ℤ
  pub image : String
  pub state : SandboxState
  pub state_version : ℕ
  pub resources : String
  pub env : String
  pub idle_timeout_seconds : ℤ
  pub created_at : ℕ
  pub updated_at : ℕ
  pub last_active_at : ℕ
  pub failure_count : ℕ
  pub metadata : String
  pub verified_at : ℕ

pub record Node : Type 0 where
  pub id : ℕ
  pub hostname : String
  pub tailscale_ip : String
  pub agent_listen_port : ℤ
  pub capacity_mb : ℤ
  pub capacity_cpu : String
  pub used_mb : ℤ
  pub running_containers : ℤ
  pub status : NodeStatus
  pub agent_version : String
  pub last_seen_at : ℕ
  pub registered_at : ℕ
  pub metadata : String
  pub agent_token : String

-- `Resources` of lifecycle.go; the float64 is the pattern of its bits, which nothing computes with.
pub record Resources : Type 0 where
  pub cpu_cores : ℕ
  pub memory_mb : ℤ

-- The values that the handlers encode as JSON, one constructor for each set of keys.
pub data Payload : Type 0 where
  start_payload : String → String → Resources → List (String × String) → Payload
  restart_payload : String → String → String → ℕ → Payload
  resched_payload : String → String → Resources → String → Payload
  container_payload : String → Payload
  reap_payload : String → Payload
  empty_object : Payload
  raw : String → Payload

pub record Command : Type 0 where
  pub id : ℕ
  pub node_id : ℕ
  pub sandbox_id : Option ℕ
  pub command_type : CommandType
  pub payload : Payload
  pub status : CommandStatus
  pub dispatched_at : Option ℕ
  pub acked_at : Option ℕ
  pub result : Option String
  pub timeout_seconds : ℕ
  pub created_at : ℕ

pub record Event : Type 0 where
  pub sandbox_id : Option ℕ
  pub node_id : Option ℕ
  pub event_type : String
  pub actor : String
  pub prev_state : Option SandboxState
  pub next_state : Option SandboxState
  pub payload : Payload
  pub created_at : ℕ

-- The database: its tables, in order of insertion, and the value of NOW().
pub record Db : Type 0 where
  pub sandboxes : List Sandbox
  pub nodes : List Node
  pub commands : List Command
  pub events : List Event
  pub now : ℕ

-- What a statement can answer in place of rows; `failure` is any other error, with its text.
pub data DbErr : Type 0 where
  no_rows unique_violation fk_violation check_violation not_null_violation : DbErr
  failure : String → DbErr

-- A statement reads or changes the tables at once.
abbrev pub Query : Type 0 → Type 0
Query A = Db → Result DbErr A × Db
