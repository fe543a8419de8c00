-- ===== src/Scheduler/Tests.antt =====
-- The scheduler's theorem at three candidates.
use appx_forge.Base.{List, [], ◌∷◌}
use appx_forge.Base.Int.{pos}
use appx_forge.Models.{healthy, draining}
use appx_forge.Scheduler.{NodeCandidate, schedule}
use appx_forge.Scheduler.Choice.{Verdict, schedule-Verdict}

abbrev candidates : List NodeCandidate
candidates =
    record { id = 1; capacity_mb = pos 2048; used_mb = pos 1024; status = healthy }
    ∷ record { id = 2; capacity_mb = pos 9000; used_mb = pos 0; status = draining }
    ∷ record { id = 3; capacity_mb = pos 4096; used_mb = pos 1024; status = healthy }
    ∷ []

schedule-Verdict_example : Verdict (pos 512) candidates (schedule candidates (pos 512))
schedule-Verdict_example = schedule-Verdict candidates (pos 512)
