-- ===== src/Monitor/Tests.antt =====
-- The monitor's theorems at concrete inputs.
use appx_forge.Base.{◌≡◌, refl, true, [], ◌∷◌, ok}
use appx_forge.Models.{running, draining}
use appx_forge.Store.Call.{World}
use appx_forge.Store.Quiet.{Runs}
use appx_forge.TestData.{sandbox_at, node_one, world_of, calm, calm-IsQuiet}
use appx_forge.Monitor.{HeartbeatConfig, is_silent, monitor_tick}
use appx_forge.Monitor.Silence.{is_lost, tick-spared}
use appx_forge.Monitor.Marking.{IsMarked, tick-IsMarked}

abbrev config : HeartbeatConfig
config = record { interval_seconds = 10; miss_threshold = 3 }

-- A node that is draining and was last seen a minute ago, with a running sandbox.
abbrev draining_world : World
draining_world =
    let w = world_of (sandbox_at running 0) in
    record w { db = record w.db { nodes = record node_one { status = draining } ∷ [] } }

tick-spared_example :
    (w' : World) × Runs calm (monitor_tick config true 60000000) draining_world (ok tt) w'
    × (w'.db ≡ draining_world.db)
tick-spared_example = tick-spared calm-IsQuiet config true 60000000 draining_world refl

lost : is_lost config 60000000 node_one ≡ true
unfolding is_silent
lost = refl

tick-IsMarked_example :
    (w' : World) × Runs calm
      (monitor_tick config true 60000000)
      (world_of (sandbox_at running 0))
      (ok tt)
      w'
    × IsMarked 1 w'.db
tick-IsMarked_example =
    tick-IsMarked calm-IsQuiet config true 60000000 1 (world_of (sandbox_at running 0)) node_one
      refl lost
