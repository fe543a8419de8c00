-- ===== src/Models.antt =====
-- shared-go/models: the states of a sandbox, the events that drive it, and the values of the
-- other text columns. The database checks that a column holds one of these values.
pub mod Machine
mod Tests
use appx_forge.Base.{Bool, true, false, Option, none, some, List, [], ◌∷◌, String}

pub data SandboxState : Type 0 where
  pending starting running restarting stopped destroying destroyed failed : SandboxState

pub data SandboxEvent : Type 0 where
  scheduled started container_exited idle_timeout destroy_requested destroy_done : SandboxEvent
  restart_attempt node_failed start_failed : SandboxEvent

pub data CommandType : Type 0 where
  start_sandbox stop_sandbox restart_sandbox get_logs prune : CommandType

pub data CommandStatus : Type 0 where
  cmd_pending cmd_dispatched cmd_completed cmd_failed : CommandStatus

pub data NodeStatus : Type 0 where
  healthy unhealthy draining removed : NodeStatus

-- The text of a state, as the columns and the wire hold it.
unfoldable pub state_name : SandboxState → String
state_name pending = "pending"
state_name starting = "starting"
state_name running = "running"
state_name restarting = "restarting"
state_name stopped = "stopped"
state_name destroying = "destroying"
state_name destroyed = "destroyed"
state_name failed = "failed"

unfoldable pub event_name : SandboxEvent → String
event_name scheduled = "scheduled"
event_name started = "started"
event_name container_exited = "container_exited"
event_name idle_timeout = "idle_timeout"
event_name destroy_requested = "destroy_requested"
event_name destroy_done = "destroyed"
event_name restart_attempt = "restart_attempt"
event_name node_failed = "node_failed"
event_name start_failed = "start_failed"

-- The table `ValidTransitions`, a clause for each entry; `none` is a missing key of either map.
unfoldable pub next_state : SandboxState → SandboxEvent → Option SandboxState
next_state pending scheduled = some starting
next_state pending destroy_requested = some destroyed
next_state starting started = some running
next_state starting container_exited = some failed
next_state starting start_failed = some failed
next_state starting destroy_requested = some destroying
next_state running container_exited = some restarting
next_state running destroy_requested = some destroying
next_state running idle_timeout = some stopped
next_state running node_failed = some pending
next_state restarting restart_attempt = some starting
next_state restarting destroy_requested = some destroying
next_state stopped scheduled = some starting
next_state stopped destroy_requested = some destroyed
next_state destroying destroy_done = some destroyed
next_state failed restart_attempt = some starting
next_state failed destroy_requested = some destroyed
next_state failed started = some running
next_state _ _ = none

unfoldable pub all_states : List SandboxState
all_states =
    pending ∷ starting ∷ running ∷ restarting ∷ stopped ∷ destroying ∷ destroyed ∷ failed ∷ []

unfoldable pub all_events : List SandboxEvent
all_events =
    scheduled ∷ started ∷ container_exited ∷ idle_timeout ∷ destroy_requested ∷ destroy_done
    ∷ restart_attempt ∷ node_failed ∷ start_failed ∷ []

-- `state == StateDestroyed`.
unfoldable pub is_terminal : SandboxState → Bool
is_terminal destroyed = true
is_terminal _ = false

-- Go's `==` on states.
unfoldable pub state_eq : SandboxState → SandboxState → Bool
state_eq pending pending = true
state_eq starting starting = true
state_eq running running = true
state_eq restarting restarting = true
state_eq stopped stopped = true
state_eq destroying destroying = true
state_eq destroyed destroyed = true
state_eq failed failed = true
state_eq _ _ = false
