-- ===== src/Reconciler/Tests.antt =====
-- The reconciler's theorem at a destroyed sandbox whose container an agent reports as running.
use appx_forge.Base.{◌≡◌, refl, if◌then◌else◌, some, [], ◌∷◌, ok, arith, str_append}
use appx_forge.Base.Int.{pos}
use appx_forge.Models.{destroyed, running, state_name, all_states}
use appx_forge.Store.Sandboxes.{verified, is_lost, lost}
use appx_forge.Store.Call.{World}
use appx_forge.Store.Quiet.{Runs}
use appx_forge.Reconciler.{ContainerInfo, reconcile}
use appx_forge.Reconciler.Fate.{reconcile-unreported}
use appx_forge.Reconciler.Revival.{app_row, reconcile-verified}
use appx_forge.TestData.{sandbox_at, world_of, calm, calm-IsQuiet}

abbrev container : ContainerInfo
container = record {
  app_name = "shop";
  state = "running";
  host_port = pos 30000;
  container_id = "c1";
}

reconcile-verified_example :
    (w' : World) × Runs calm
      (reconcile str_append 90 2 (container ∷ []))
      (world_of (sandbox_at destroyed 0))
      (ok tt)
      w'
    × (app_row "shop" w'.db ≡ some (verified running 100 (sandbox_at destroyed 0)))
unfolding state_name all_states
reconcile-verified_example =
    reconcile-verified calm-IsQuiet str_append 90 2 container (world_of (sandbox_at destroyed 0))
      (sandbox_at destroyed 0) running refl refl (omega arith)

abbrev old_world : World
old_world =
    let w = world_of (sandbox_at running 0) in record w { db = record w.db { now = 70000000 } }

reconcile-unreported_example :
    (w' : World) × Runs calm (reconcile str_append 70000000 1 []) old_world (ok tt) w'
    × (app_row "shop" w'.db
        ≡ some (
            if is_lost "shop" 1 70000000 (sandbox_at running 0)
            then lost str_append 70000000 (sandbox_at running 0)
            else sandbox_at running 0))
reconcile-unreported_example =
    reconcile-unreported str_append 70000000 1 [] "shop" calm-IsQuiet old_world
      (sandbox_at running 0) refl refl (λ l. refl)
