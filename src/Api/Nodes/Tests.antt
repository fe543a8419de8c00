-- ===== src/Api/Nodes/Tests.antt =====
-- The node handlers' theorems at concrete inputs.
use mathlib.Core.Option
use appx_forge.Base.{◌<◌, ◌≡◌, refl, true, none, some, ok, err}
use appx_forge.Base.Int.{pos}
use appx_forge.Models.{running, draining, healthy, removed}
use appx_forge.Store.{Node}
use appx_forge.Store.Call.{World}
use appx_forge.Store.Quiet.{Runs}
use appx_forge.TestData.{sandbox_at, node_one, world_of, calm, calm-IsQuiet}
use appx_forge.Api.{conflict}
use appx_forge.Api.Nodes.{
  RegisterRequest, RegisterOutside, HeartbeatRequest, handle_drain_node, handle_remove_node,
  handle_heartbeat,
}
use appx_forge.Api.Nodes.Registration.{IsRegistering, IsAccepted, register-IsRegistered}
use appx_forge.Api.Nodes.Draining.{drain-heartbeat, remove_verdict, node_row, active_on}

abbrev outside : RegisterOutside
outside = record { parse_addr = λ s. some s; token = some "t1" }

abbrev newcomer : RegisterRequest
newcomer = record {
  hostname = "n2";
  tailscale_ip = "100.64.0.2";
  agent_listen_port = pos 0;
  capacity_mb = pos 8192;
  capacity_cpu = "8";
  agent_version = "2";
  metadata = none;
}

accepted : IsAccepted outside newcomer "100.64.0.2" "t1"
accepted = record {
  host = refl;
  address = refl;
  capacity = refl;
  version = refl;
  parsed = refl;
  drawn = refl;
  real = refl;
}

abbrev busy_world : World
busy_world = world_of (sandbox_at running 0)

register-IsRegistered_example : IsRegistering calm outside 10 newcomer "100.64.0.2" busy_world
register-IsRegistered_example =
    register-IsRegistered calm-IsQuiet outside 10 newcomer "100.64.0.2" "t1" busy_world accepted
      refl

abbrev bare_beat : HeartbeatRequest
bare_beat = record { used_mb = pos 512; running_containers = pos 1; containers = none }

drain-heartbeat_example :
    (v w' : World) × Runs calm (handle_drain_node (some 1)) busy_world (ok 200) v
    × Runs calm (handle_heartbeat (λ m r. m) 5 true (some 1) (some bare_beat)) v (ok 200) w'
    × (Option.map (λ (r : Node). r.status) (node_row 1 v) ≡ some draining)
    × (Option.map (λ (r : Node). r.status) (node_row 1 w') ≡ some healthy)
drain-heartbeat_example =
    drain-heartbeat calm-IsQuiet 1 (λ m r. m) 5 true bare_beat busy_world node_one refl refl

remove_verdict_example :
    ((0 < active_on 1 busy_world)
      → (w' : World) × Runs calm
          (handle_remove_node (some 1))
          busy_world
          (err (conflict "node has active sandboxes; drain first"))
          w'
        × (w'.db ≡ busy_world.db))
    × ((active_on 1 busy_world ≡ 0)
        → (w' : World) × Runs calm (handle_remove_node (some 1)) busy_world (ok 200) w'
          × (node_row 1 w' ≡ some (record node_one { status = removed })))
remove_verdict_example = remove_verdict calm-IsQuiet 1 busy_world node_one refl
