-- ===== src/Lifecycle/Tests.antt =====
-- The lifecycle's theorems at concrete inputs.
use appx_forge.Base.{ℕ, ◌≡◌, refl, true, Option, none, some, List, [], ◌∷◌, ok, arith, find}
use appx_forge.Base.Int.{pos}
use appx_forge.Models.{
  state_eq, destroyed, start_sandbox, cmd_completed, running, destroying, stop_sandbox,
  container_exited,
}
use appx_forge.Store.{start_payload, Sandbox, Db}
use appx_forge.Store.Sandboxes.{has_id}
use appx_forge.Store.Call.{World}
use appx_forge.Store.Keys.{row}
use appx_forge.Store.Quiet.{Runs}
use appx_forge.TestData.{sandbox_at, node_one, world_of, calm, calm-IsQuiet}
use appx_forge.Lifecycle.{LifecycleService}
use appx_forge.Lifecycle.Events.{handle_event, container_event}
use appx_forge.Lifecycle.Operations.{
  Operation, acks, reports, destroys, perform_all, perform_all-Historic, perform_all-Fate, Fate,
}
use appx_forge.Lifecycle.History.{Historic, Lineage, done}
use appx_forge.Lifecycle.Crash.{exit_exhausted-IsStuck, IsStuck}
use appx_forge.Lifecycle.Create.{CreateRequest}
use appx_forge.Store.Table.{delete}
use appx_forge.Lifecycle.Recycling.{Answer, create_existing-Answer}
use appx_forge.Lifecycle.Recovery.{exit-IsRecovering, IsRecovering}

abbrev service : LifecycleService
service = record { route_notifier = true; restart_mgr = true }

exited : container_event "container_exited" ≡ some container_exited
unfolding container_event
exited = refl

alone : (n : ℕ) (db : Db) → Historic 7 db (calm.interfere n db)
alone n db = same (find (has_id 7) db.sandboxes)
  where
    same : (o : Option Sandbox) → Lineage o o
    same none = tt
    same (some r) = (0, omega arith, done)

abbrev script : List Operation
script = reports 1 7 "container_exited" "" ∷ destroys 7 ∷ acks 51 7 stop_sandbox "success" "" ∷ []

perform_all-Historic_example :
    Historic 7
      (world_of (sandbox_at running 0)).db
      (perform_all service script calm (world_of (sandbox_at running 0))).1.db
perform_all-Historic_example =
    perform_all-Historic 7 calm alone service script (world_of (sandbox_at running 0))

perform_all-Fate_example :
    Fate
      (sandbox_at destroying 0)
      (row 7 (perform_all service script calm (world_of (sandbox_at destroying 0))).1.db)
perform_all-Fate_example =
    perform_all-Fate 7 calm alone service script (world_of (sandbox_at destroying 0))
      (sandbox_at destroying 0) refl

exit_exhausted-IsStuck_example :
    (w' : World) × Runs calm
      (handle_event service 1 7 "container_exited" "")
      (world_of (sandbox_at running 3))
      (ok tt)
      w'
    × IsStuck (world_of (sandbox_at running 3)) (sandbox_at running 3) w'
exit_exhausted-IsStuck_example =
    exit_exhausted-IsStuck calm-IsQuiet service (world_of (sandbox_at running 3)) 1
      (sandbox_at running 3) "container_exited" "" refl (refl, tt) refl refl (omega arith) exited

exit-IsRecovering_example :
    (w' : World) × Runs calm
      (handle_event service 1 7 "container_exited" "")
      (world_of (sandbox_at running 2))
      (ok tt)
      w'
    × IsRecovering calm (world_of (sandbox_at running 2)) (sandbox_at running 2) 1 w'
exit-IsRecovering_example =
    exit-IsRecovering calm-IsQuiet service (world_of (sandbox_at running 2)) 1 1
      (sandbox_at running 2) "container_exited" "" refl (refl, tt) refl refl (omega arith) refl
      (record { known = refl; fresh = refl }) exited

-- The sandbox was started once and is destroyed.
abbrev world_with_command : World
world_with_command = record {
  db = record {
    sandboxes = sandbox_at destroyed 0 ∷ [];
    nodes = node_one ∷ [];
    commands =
        record {
          id = 50;
          node_id = 1;
          sandbox_id = some 7;
          command_type = start_sandbox;
          payload = start_payload "shop" "img" (record { cpu_cores = 0; memory_mb = pos 512 }) [];
          status = cmd_completed;
          dispatched_at = some 11;
          acked_at = some 12;
          result = none;
          timeout_seconds = 60;
          created_at = 10;
        }
        ∷ [];
    events = [];
    now = 100;
  };
  calls = 0;
  uuids = 1;
  route_calls = [];
}

abbrev again : CreateRequest
again = record {
  app_name = "shop";
  user_id = "u1";
  image = "img";
  resources = record { cpu_cores = 0; memory_mb = pos 512 };
  env = [];
  idle_timeout_seconds = pos 0;
  metadata = none;
}

create_existing-Answer_example :
    Answer calm again world_with_command (sandbox_at destroyed 0) true true
unfolding delete state_eq
create_existing-Answer_example =
    create_existing-Answer calm-IsQuiet again world_with_command (sandbox_at destroyed 0) refl refl
