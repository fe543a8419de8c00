-- ===== src/Api/Sandboxes/Tests.antt =====
-- The sandbox handlers' theorems at concrete inputs.
use appx_forge.Base.{ℕ, ◌≡◌, refl, none, some, err, [], ◌∷◌}
use appx_forge.Models.{running}
use appx_forge.Store.Call.{World}
use appx_forge.Store.Quiet.{Runs}
use appx_forge.TestData.{sandbox_at, world_of, calm, calm-IsQuiet}
use appx_forge.Api.{internal_error}
use appx_forge.Api.Sandboxes.{handle_destroy_sandbox, handle_restart_sandbox, handle_wake_sandbox}
use appx_forge.Api.Sandboxes.Refusals.{missing-internal_error}
use appx_forge.Api.Sandboxes.Reading.{oldest_verified}
use appx_forge.Api.Sandboxes.Oldest.{IsOldest, oldest_verified-IsOldest}

abbrev some_world : World
some_world = world_of (sandbox_at running 0)

missing-internal_error_example :
    (w' : World) × (w'.db ≡ some_world.db)
    × Runs calm
        (handle_destroy_sandbox (some 9))
        some_world
        (err (internal_error "failed to destroy sandbox"))
        w'
    × Runs calm
        (handle_restart_sandbox (some 9))
        some_world
        (err (internal_error "failed to restart sandbox"))
        w'
    × Runs calm
        (handle_wake_sandbox "" (some 9))
        some_world
        (err (internal_error "failed to wake sandbox"))
        w'
missing-internal_error_example = missing-internal_error calm-IsQuiet 9 some_world refl ""

oldest_verified-IsOldest_example :
    (t : ℕ) × (oldest_verified none (sandbox_at running 0 ∷ sandbox_at running 1 ∷ []) ≡ some t)
    × IsOldest t (sandbox_at running 0 ∷ sandbox_at running 1 ∷ [])
oldest_verified-IsOldest_example =
    oldest_verified-IsOldest (sandbox_at running 0) (sandbox_at running 1 ∷ [])
