-- ===== src/Lifecycle.antt =====
-- control/internal/lifecycle: what the handlers share. A handler is a computation over the database
-- and the router; calls of the logger are left out, and an error that is only logged is dropped.
pub mod Restart
pub mod Routes
pub mod Ack
pub mod Events
pub mod Create
pub mod Requests
pub mod Reschedule
pub mod Reaper
pub mod Guarantee
pub mod History
pub mod Operations
pub mod Crash
pub mod Recovery
pub mod Recycling
mod Tests
use appx_forge.Base.{
  ℕ, Bool, true, false, Option, none, some, String, if◌then◌else◌, str_eq, Result,
}
use appx_forge.Models.{SandboxState, CommandType}
use appx_forge.Store.{Payload, empty_object, raw, DbErr, no_rows, Event}
use appx_forge.Store.Commands.{RecordEventParams, record_event}
use appx_forge.Store.Call.{M, attempt, ◌>>=◌, ◌>>◌, pure}

-- The sentinel errors, and `fmt.Errorf("what: %w", err)` around an error of the database.
pub data Err : Type 0 where
  not_found conflict no_capacity invalid_transition invalid_state : Err
  wrapped : String → DbErr → Err

-- `errors.Is(err, pgx.ErrNoRows)`.
abbrev pub is_no_rows : DbErr → Bool
is_no_rows no_rows = true
is_no_rows _ = false

-- The optional parts of the service: `routeNotifier != nil`, `restartMgr != nil`.
pub record LifecycleService : Type 0 where
  pub route_notifier : Bool
  pub restart_mgr : Bool

-- `safePayload`; a nil slice is the empty text.
unfoldable pub safe_payload : String → Payload
safe_payload p = if str_eq p "" then empty_object else raw p

-- RecordEvent where the error is logged or ignored.
unfoldable pub record_quietly : RecordEventParams → M Err (Unit {0})
record_quietly a = do attempt (record_event a); pure tt

abbrev pub skip : M Err (Unit {0})
skip = pure tt
