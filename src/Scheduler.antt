-- ===== src/Scheduler.antt =====
-- control/internal/scheduler/scheduler.go: the choice of a node for a sandbox.
pub mod Choice
mod Tests
use appx_forge.Base.{ℕ, Bool, true, false, not, ◌||◌, List, [], ◌∷◌, Result, ok, err, if◌then◌else◌}
use appx_forge.Base.Int.{ℤ, pos, negsuc, ◌-ℤ◌, ltb_ℤ, wrap32}
use appx_forge.Models.{NodeStatus}
use appx_forge.Store.Nodes.{is_healthy}

pub data ScheduleErr : Type 0 where
  no_nodes no_capacity : ScheduleErr

pub record NodeCandidate : Type 0 where
  pub id : ℕ
  pub capacity_mb : ℤ
  pub used_mb : ℤ
  pub status : NodeStatus

-- `c.CapacityMB - c.UsedMB`, as int32.
unfoldable pub free : NodeCandidate → ℤ
free c = wrap32 (c.capacity_mb -ℤ c.used_mb)

-- The loop, with `bestID` and `bestFree` as its variables; the branches that do not improve on the
-- best leave both alone.
unfoldable pub pick : ℤ → ℕ → ℤ → List NodeCandidate → ℕ × ℤ
pick required best_id best_free [] = (best_id, best_free)
pick required best_id best_free (c ∷ cs) =
    let f = free c in
    let skip = not (is_healthy c.status) || ltb_ℤ f required || not (ltb_ℤ best_free f) in
    pick required (if skip then best_id else c.id) (if skip then best_free else f) cs

abbrev chosen : ℕ × ℤ → Result ScheduleErr ℕ
chosen (best_id, best_free) = if ltb_ℤ best_free (pos 0) then err no_capacity else ok best_id

-- `bestID` starts as the nil UUID and `bestFree` as -1.
unfoldable pub schedule : List NodeCandidate → ℤ → Result ScheduleErr ℕ
unfolding pick
schedule [] required = err no_nodes
schedule (c ∷ cs) required = chosen (pick required 0 (negsuc 0) (c ∷ cs))
