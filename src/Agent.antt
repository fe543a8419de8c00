-- ===== src/Agent.antt =====
-- agent/internal/agent and agent/internal/health: what the agent tells the control plane about its
-- containers, on its own in a heartbeat and when it is asked. A snapshot is an argument: what
-- Docker's listing gave, or an error.
pub mod Answers
pub mod Blindness
pub mod Loop
pub mod Forwarding
mod Tests
use appx_forge.Base.{
  ℕ, Bool, true, false, Option, none, some, List, [], ◌∷◌, map, String, Result, ok, err, str_eq,
  find, on_result, on_option, if◌then◌else◌,
}
use appx_forge.Base.Int.{ℤ, pos}
use appx_forge.Docker.{ContainerSnapshot}
use appx_forge.Reconciler.{ContainerInfo}
use appx_forge.Api.Nodes.{HeartbeatRequest}
use appx_forge.ControlClient.{Client, ClientOutside, send_heartbeat}

-- The resource collector's used memory and running containers: placeholders.
unfoldable pub collect : ℤ × ℤ
collect = (pos 0, pos 0)

unfoldable pub to_container_info : ContainerSnapshot → ContainerInfo
to_container_info s = record {
  app_name = s.app_name;
  state = s.state;
  host_port = s.host_port;
  container_id = s.container_id;
}

-- The body of a heartbeat, whose list is never null.
unfoldable pub heartbeat_request : List ContainerSnapshot → HeartbeatRequest
heartbeat_request snapshots = record {
  used_mb = collect.0;
  running_containers = collect.1;
  containers = some (map to_container_info snapshots);
}

-- One tick: the body that is sent, if one is, and the client afterwards, whose error is only logged.
unfoldable pub beat :
    ClientOutside
    → Result String (List ContainerSnapshot)
    → Client
    → Option HeartbeatRequest × Client
beat out snapshot c =
    on_result snapshot (λ snapshots. (some (heartbeat_request snapshots), (send_heartbeat out c).1))
      (λ e. (none, c))

pub record ExistsResponse : Type 0 where
  pub exists : Bool
  pub app_name : String
  pub state : String
  pub host_port : ℤ
  pub container_id : String

abbrev has_name : String → ContainerSnapshot → Bool
has_name name c = str_eq c.app_name name

-- GET /v1/containers/{name}: the status, and the body where it is JSON.
unfoldable pub handle_container_exists :
    String → Result String (List ContainerSnapshot) → ℕ × Option ExistsResponse
handle_container_exists name snapshot =
    if str_eq name ""
    then (400, none)
    else on_result snapshot
        (λ containers.
          on_option (find (has_name name) containers)
            (λ c. (
              200,
              some (record {
                exists = true;
                app_name = c.app_name;
                state = c.state;
                host_port = c.host_port;
                container_id = c.container_id;
              }),
            ))
            (
              404,
              some (record {
                exists = false;
                app_name = name;
                state = "";
                host_port = pos 0;
                container_id = "";
              }),
            ))
        (λ e. (500, none))
