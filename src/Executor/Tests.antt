-- ===== src/Executor/Tests.antt =====
-- The executor's theorems at runs with one sandbox.
use appx_forge.Base.{refl, List, [], ◌∷◌, ok, err}
use appx_forge.Ports.{new_allocator}
use appx_forge.Ports.Partition.{new_allocator-IsPartition}
use appx_forge.Ports.{allocate, ports_from, grant}
use appx_forge.Base.Int.{scale64}
use appx_forge.Executor.{is_expired, Command, Outside, new_command_executor}
use appx_forge.Base.Dict.{lookup, put}
use appx_forge.TestData.{outside, start_it, fresh}
use appx_forge.Executor.Handlers.{
  execute, execute_start_sandbox, start_on_port, ack_success, ack_failure, track,
}
use appx_forge.Executor.Tracking.{
  IsTracking, Unchanged, execute_all, execute_all-IsTracking, failure-Unchanged,
}
use appx_forge.Executor.Leak.{IsLeaked, start_again-IsLeaked}

abbrev one_running : List (Outside × Command)
one_running = (outside (ok "c"), start_it) ∷ []

execute_all-IsTracking_example : IsTracking (execute_all one_running fresh)
execute_all-IsTracking_example = execute_all-IsTracking one_running 40000 40009 "/data"

failure-Unchanged_example : Unchanged fresh (execute (outside (err "no image")) start_it fresh).1
unfolding new_command_executor new_allocator execute is_expired scale64 execute_start_sandbox
    allocate ports_from start_on_port ack_failure
failure-Unchanged_example =
    failure-Unchanged (outside (err "no image")) start_it fresh
      (new_allocator-IsPartition 40000 40009) refl

start_again-IsLeaked_example :
    IsLeaked 40000
      (execute_all [] (execute (outside (ok "c")) start_it (execute_all one_running fresh)).1)
unfolding lookup execute_all execute is_expired scale64 execute_start_sandbox allocate
    new_command_executor new_allocator ports_from start_on_port ack_success track put grant
start_again-IsLeaked_example =
    start_again-IsLeaked (outside (ok "c")) start_it (execute_all one_running fresh)
      (record { container_id = "c"; host_port = 40000; app_name = "app" }) []
      (execute_all-IsTracking one_running 40000 40009 "/data") refl refl
